-- ===== src/Store/Matching/Found.antt =====
-- What `Store::matching` of src/store.rs finds where no call meets a failure.
use immure.Prelude.{
  ◌≤◌, ◌≡◌, refl, ap, sym, ◌∙◌, ◌⊎◌, inl, inr, ◌↔◌, Text, to_ascii_lowercase, is_ascii_hexdigit,
  true, false, Bool-cases, Option, none, some, List, [], ◌∷◌, length, all_of, is_empty, ltb,
  IsRising, dedup, sort, dedup-sort, arith,
}
use mathlib.Core.List.{Memᴰ}
use mathlib.Core.List.Memᴰ
use immure.FilePath.{OsName, utf8, raw}
use immure.Error.{ok, ctx}
use immure.Digest.Types.{Digest}
use immure.Layout.{Form, shard_of, parse_name}
use immure.World.{Node, dir, at, World}
use immure.World.Listed.{read_dir_calm, next_item_calm}
use immure.World.Listing.{children, next_item}
use immure.Store.{Store, min_prefix}
use immure.Store.Check.{same_digest}
use immure.Store.Matching.{
  starts_with, digest_ltb, chosen, match_of, gained, arranged, collect_matches, matching,
}
use immure.Store.Matching.Order.{digest_ltb-IsOrder}

-- The name is a file name of the digest, in some form, and the digest starts with the prefix.
abbrev pub Names : Store → Text → OsName → Digest → Type 0
Names s prefix c d =
    (name : Text) × (f : Form) × (c ≡ utf8 name)
    × (parse_name s.layout name ≡ some (d, f))
    × (starts_with d.text prefix ≡ true)

-- One of the items is a file name of the digest.
abbrev pub NamesOne : Store → Text → List (OsName × Node) → Digest → Type 0
NamesOne s prefix items d = (c : OsName) × (n : Node) × Memᴰ (c, n) items × Names s prefix c d

abbrev gathered : Store → Text → List (OsName × Node) → List Digest → List Digest
gathered s prefix [] found = found
gathered s prefix ((c, n) ∷ more) found =
    gathered s prefix more (gained (match_of s prefix c) found)

collect_one :
    (s : Store) (prefix : Text) (c : OsName) (n : Node) (more : List (OsName × Node))
    (found : List Digest) (w : World)
    → next_item c w ≡ (ok c, w)
    → collect_matches s prefix ((c, n) ∷ more) found w
      ≡ collect_matches s prefix more (gained (match_of s prefix c) found) w
unfolding collect_matches ctx
collect_one s prefix c n more found w there = rw there refl

collect_matches_calm :
    (s : Store) (prefix : Text) (items : List (OsName × Node)) (found : List Digest) (w : World)
    → w.script ≡ []
    → collect_matches s prefix items found w ≡ (ok (gathered s prefix items found), w)
unfolding collect_matches
collect_matches_calm s prefix [] found w calm = refl
collect_matches_calm s prefix ((c, n) ∷ more) found w calm =
    collect_one s prefix c n more found w (next_item_calm c w calm)
    ∙ collect_matches_calm s prefix more (gained (match_of s prefix c) found) w calm

none-some : {A : Type 0} (o : Option A) (a : A) → o ≡ none → o ≡ some a → ⊥
none-some o a gone e = cc

some_injective : {A : Type 0} (a b : A) → some a ≡ some b → a ≡ b
some_injective a b e = cc

chosen_from :
    (prefix : Text) (o : Option (Digest × Form)) (d : Digest)
    → chosen prefix o ≡ some d
    → (f : Form) × (o ≡ some (d, f)) × (starts_with d.text prefix ≡ true)
chosen_from prefix none d e = absurd (none-some _ d refl e)
chosen_from prefix (some (d', f)) d e = elim (Bool-cases (starts_with d'.text prefix)) [
  | inl fits ↦
      let same = some_injective d' d (sym (rw fits refl) ∙ e) in
      (f, ap (λ d. some (d, f)) same, ap (λ d. starts_with d.text prefix) (sym same) ∙ fits)
  | inr fails ↦ absurd (none-some _ d (rw fails refl) e)
]

match_from :
    (s : Store) (prefix : Text) (c : OsName) (d : Digest)
    → match_of s prefix c ≡ some d
    → Names s prefix c d
unfolding match_of
match_from s prefix (utf8 name) d e =
    let (f, parsed, fits) = chosen_from prefix (parse_name s.layout name) d e in
    (name, f, refl, parsed, fits)
match_from s prefix (raw b) d e = absurd (none-some _ d refl e)

match_all :
    (s : Store) (prefix : Text) (c : OsName) (d : Digest)
    → Names s prefix c d
    → match_of s prefix c ≡ some d
unfolding match_of
match_all s prefix c d (name, f, is_text, parsed, fits) =
    ap (match_of s prefix) is_text ∙ (ap (chosen prefix) parsed ∙ rw fits refl)

gained_from :
    (o : Option Digest) (found : List Digest) (d : Digest)
    → Memᴰ d (gained o found)
    → (o ≡ some d) ⊎ Memᴰ d found
gained_from none found d m = inr m
gained_from (some e) found d m = elim (Memᴰ.append_cases found m) [
  | inl m ↦ inr m
  | inr m ↦ inl (ap some (sym (Memᴰ.eq_of_singleton m)))
]

gained_all :
    (o : Option Digest) (found : List Digest) (d : Digest)
    → (o ≡ some d) ⊎ Memᴰ d found
    → Memᴰ d (gained o found)
gained_all none found d (inl e) = absurd (none-some _ d refl e)
gained_all none found d (inr m) = m
gained_all (some e) found d (inl same) =
    Memᴰ.append_right found (Memᴰ.head (sym (some_injective e d same)))
gained_all (some e) found d (inr m) = Memᴰ.append_left (e ∷ []) m

gathered_from :
    (s : Store) (prefix : Text) (items : List (OsName × Node)) (found : List Digest) (d : Digest)
    → Memᴰ d (gathered s prefix items found)
    → NamesOne s prefix items d ⊎ Memᴰ d found
gathered_from s prefix [] found d m = inr m
gathered_from s prefix ((c, n) ∷ more) found d m =
    elim (gathered_from s prefix more (gained (match_of s prefix c) found) d m) [
      | inl (c', n', m', names) ↦ inl (c', n', Memᴰ.tail m', names)
      | inr m ↦ elim (gained_from (match_of s prefix c) found d m) [
        | inl e ↦ inl (c, n, Memᴰ.head refl, match_from s prefix c d e)
        | inr m ↦ inr m
      ]
    ]

gathered_keeps :
    (s : Store) (prefix : Text) (items : List (OsName × Node)) (found : List Digest) (d : Digest)
    → Memᴰ d found
    → Memᴰ d (gathered s prefix items found)
gathered_keeps s prefix [] found d m = m
gathered_keeps s prefix ((c, n) ∷ more) found d m =
    gathered_keeps s prefix more (gained (match_of s prefix c) found) d
      (gained_all (match_of s prefix c) found d (inr m))

gathered_all :
    (s : Store) (prefix : Text) (items : List (OsName × Node)) (found : List Digest) (d : Digest)
    (c : OsName) (n : Node)
    → Memᴰ (c, n) items
    → Names s prefix c d
    → Memᴰ d (gathered s prefix items found)
gathered_all s prefix [] found d c n m names = absurd (Memᴰ.not-nil m)
gathered_all s prefix ((c', n') ∷ more) found d c n m names = elim (Memᴰ.cases_cons m) [
  | inl x ↦ gathered_keeps s prefix more (gained (match_of s prefix c') found) d (
      gained_all (match_of s prefix c') found d
        (inl (ap (λ x. match_of s prefix x.0) (sym x) ∙ match_all s prefix c d names)))
  | inr m ↦ gathered_all s prefix more (gained (match_of s prefix c') found) d c n m names
]

gathered_iff :
    (s : Store) (prefix : Text) (items : List (OsName × Node)) (d : Digest)
    → Memᴰ d (gathered s prefix items []) ↔ NamesOne s prefix items d
gathered_iff s prefix items d = (
  λ m. elim (gathered_from s prefix items [] d m) [
    | inl names ↦ names
    | inr m ↦ absurd (Memᴰ.not-nil m)
  ],
  λ x. let (c, n, m, names) = x in gathered_all s prefix items [] d c n m names,
)

matching_run :
    (s : Store) (given : Text) (w : World)
    → w.script ≡ []
    → at (shard_of s.layout (to_ascii_lowercase given)) w.fs ≡ some dir
    → is_empty (to_ascii_lowercase given) ≡ false
    → all_of is_ascii_hexdigit (to_ascii_lowercase given) ≡ true
    → ltb (length (to_ascii_lowercase given)) (min_prefix s) ≡ false
    → matching s given w ≡ (
      ok (
          arranged (
            gathered s
              (to_ascii_lowercase given)
              (children (shard_of s.layout (to_ascii_lowercase given)) w.fs)
              [])),
      w,
    )
unfolding matching
matching_run s given w calm found filled hex long =
    rw
      (
        filled,
        hex,
        long,
        read_dir_calm (shard_of s.layout (to_ascii_lowercase given)) w calm found,
        collect_matches_calm s (to_ascii_lowercase given)
            (children (shard_of s.layout (to_ascii_lowercase given)) w.fs) [] w calm,
      )
      refl

-- When no call meets a failure, the prefix in lower case is hexadecimal, not empty and as long
-- as is needed, and its shard's directory is there: `matching` gives digests in rising order,
-- each one once, exactly those of which the directory lists a file name and that start with
-- the prefix, and changes nothing.
pub matching-NamesOne :
    (s : Store) (given : Text) (w : World)
    → w.script ≡ []
    → at (shard_of s.layout (to_ascii_lowercase given)) w.fs ≡ some dir
    → is_empty (to_ascii_lowercase given) ≡ false
    → all_of is_ascii_hexdigit (to_ascii_lowercase given) ≡ true
    → min_prefix s ≤ length (to_ascii_lowercase given)
    → (found : List Digest) × (matching s given w ≡ (ok found, w))
      × IsRising digest_ltb found
      × ((d : Digest)
          → Memᴰ d found
            ↔ NamesOne s
                (to_ascii_lowercase given)
                (children (shard_of s.layout (to_ascii_lowercase given)) w.fs)
                d)
unfolding dedup sort
matching-NamesOne s given w calm found filled hex long =
    let prefix = to_ascii_lowercase given in
    let items = children (shard_of s.layout prefix) w.fs in
    let (rising, same) =
      dedup-sort digest_ltb same_digest digest_ltb-IsOrder (gathered s prefix items []) in
    (
      arranged (gathered s prefix items []),
      matching_run s given w calm found filled hex (ground arith),
      rising,
      λ d. (
        λ m. (gathered_iff s prefix items d).0 ((same d).0 m),
        λ x. (same d).1 ((gathered_iff s prefix items d).1 x),
      ),
    )
