-- ===== src/Store/Walk/Below.antt =====
-- What a walk of src/store.rs is to find below a directory, told from the file system and the two
-- parsers of names alone, and that an item of a listing comes to just that.
use immure.Prelude.{
  ℕ, Text, codes, ◌≡◌, refl, ap, sym, ◌∙◌, ◌⊎◌, inl, inr, ◌↔◌, Bool-cases, Bool, true, false,
  Option, none, some, List, [], ◌∷◌, ◌++◌, if◌then◌else◌, arith,
}
use mathlib.Core.Path.{subst}
use immure.FilePath.{OsName, raw, utf8, FilePath, path_eq_iff, name_eq_iff, to_str}
use immure.Digest.Types.{Digest}
use immure.Layout.{Form, Layout, parse_name, parse_quarantined}
use immure.Layout.Names.{IsLayout}
use immure.Layout.Aside.{parse_name_of_quarantined}
use immure.World.{Node, file, dir, special, Fs, at}
use immure.Store.{Entry, Store}
use immure.Store.Walk.{
  Walk, entries, all, set_aside, folder, yields, nothing, named, found_entry, item_of, is_temp_dir,
  yielded, wants_entries, wants_aside,
}
use immure.Store.Check.{entry_of}

-- What a file name says to a walk: an entry's name, the name of one set aside, or either.
abbrev pub Names : Layout → Walk → Text → Digest × Form → Type 0
Names l entries t x = parse_name l t ≡ some x
Names l all t x = (parse_name l t ≡ some x) ⊎ (parse_quarantined l t ≡ some x)
Names l set_aside t x = parse_quarantined l t ≡ some x

-- A file directly in the directory that has such a name, or one below a directory in it that is
-- not `tmp` under the root.
pub data Below (l : Layout) (walk : Walk) (fs : Fs) : FilePath → Entry → Type 0 where
  inside :
      {p : FilePath} {n : Node} {d : Digest} {f : Form} (t : Text)
      → at (p ++ utf8 t ∷ []) fs ≡ some n
      → (n ≡ dir → ⊥)
      → Names l walk t (d, f)
      → Below l walk fs p (record { digest = d; path = p ++ utf8 t ∷ []; form = f })
  further :
      {p : FilePath} {c : OsName} {e : Entry}
      → at (p ++ c ∷ []) fs ≡ some dir
      → ((p ≡ l.root) × (c ≡ utf8 (codes "tmp")) → ⊥)
      → Below l walk fs (p ++ c ∷ []) e
      → Below l walk fs p e

-- `found_entry`, once the two parsers have answered.
unfoldable picked : Walk → Option Entry → Option Entry → Option Entry
picked walk plain aside = elim (if wants_entries walk then plain else none) [
  | some e ↦ some e
  | none ↦ if wants_aside walk then aside else none
]

found_entry-picked :
    (s : Store) (walk : Walk) (p : FilePath) (t : Text)
    → found_entry s walk p t
      ≡ picked walk (entry_of p (parse_name s.layout t)) (entry_of p (parse_quarantined s.layout t))
unfolding found_entry picked
found_entry-picked s walk p t = refl

found_entry-eq_some :
    (s : Store) (walk : Walk) (p : FilePath) (t : Text) (e : Entry)
    → found_entry s walk p t ≡ some e
    → (x : Digest × Form) × Names s.layout walk t x × (entry_of p (some x) ≡ some e)
unfolding picked
found_entry-eq_some s walk p t e h =
    from walk (parse_name s.layout t) (parse_quarantined s.layout t) refl refl
      (sym (found_entry-picked s walk p t) ∙ h)
  where
    from :
        (walk : Walk) (plain aside : Option (Digest × Form))
        → parse_name s.layout t ≡ plain
        → parse_quarantined s.layout t ≡ aside
        → picked walk (entry_of p plain) (entry_of p aside) ≡ some e
        → (x : Digest × Form) × Names s.layout walk t x × (entry_of p (some x) ≡ some e)
    from entries none aside a b h = absurd (cc)
    from entries (some x) aside a b h = (x, a, h)
    from all none none a b h = absurd (cc)
    from all none (some x) a b h = (x, inr b, h)
    from all (some x) aside a b h = (x, inl a, h)
    from set_aside plain none a b h = absurd (cc)
    from set_aside plain (some x) a b h = (x, b, h)

found_entry_lem :
    (s : Store) (walk : Walk) (p : FilePath) (t : Text) (x : Digest × Form)
    → IsLayout s.layout
    → Names s.layout walk t x
    → found_entry s walk p t ≡ entry_of p (some x)
unfolding picked
found_entry_lem s walk p t x w h =
    found_entry-picked s walk p t
    ∙ to walk (parse_name s.layout t) (parse_quarantined s.layout t) refl refl h
  where
    to :
        (walk : Walk) (plain aside : Option (Digest × Form))
        → parse_name s.layout t ≡ plain
        → parse_quarantined s.layout t ≡ aside
        → Names s.layout walk t x
        → picked walk (entry_of p plain) (entry_of p aside) ≡ entry_of p (some x)
    to entries plain aside a b h = rw (sym a ∙ h) refl
    to all plain aside a b (inl h) = rw (sym a ∙ h) refl
    to all plain aside a b (inr h) =
        rw (sym a ∙ parse_name_of_quarantined s.layout t x.0 x.1 w h, sym b ∙ h) refl
    to set_aside plain aside a b h = rw (sym b ∙ h) refl

-- A file with such a name is yielded.
pub yields_lem :
    (s : Store) (walk : Walk) (p : FilePath) (t : Text) (n : Node) (x : Digest × Form)
    → IsLayout s.layout
    → (n ≡ dir → ⊥)
    → Names s.layout walk t x
    → item_of s walk p (utf8 t) n
      ≡ yields (record { digest = x.0; path = p ++ utf8 t ∷ []; form = x.1 })
unfolding item_of
yields_lem s walk p t dir x w away h = absurd (away refl)
yields_lem s walk p t (file b r time) x w away h =
    ap yielded (found_entry_lem s walk (p ++ utf8 t ∷ []) t x w h)
yields_lem s walk p t special x w away h =
    ap yielded (found_entry_lem s walk (p ++ utf8 t ∷ []) t x w h)

is_temp_dir_iff :
    (s : Store) (p : FilePath) (c : OsName)
    → (is_temp_dir s p c ≡ true) ↔ ((p ≡ s.layout.root) × (c ≡ utf8 (codes "tmp")))
is_temp_dir_iff s p c = (
  λ h. ground (arith, path_eq_iff p s.layout.root, name_eq_iff c (utf8 (codes "tmp"))),
  λ h. ground (arith, path_eq_iff p s.layout.root, name_eq_iff c (utf8 (codes "tmp"))),
)

-- A directory that is not `tmp` under the root is walked.
pub folder_lem :
    (s : Store) (walk : Walk) (p : FilePath) (c : OsName)
    → ((p ≡ s.layout.root) × (c ≡ utf8 (codes "tmp")) → ⊥)
    → item_of s walk p c dir ≡ folder (p ++ c ∷ [])
unfolding item_of
folder_lem s walk p c away = elim (Bool-cases (is_temp_dir s p c)) [
  | inl e ↦ absurd (away ((is_temp_dir_iff s p c).0 e))
  | inr e ↦ rw e refl
]

-- The temporary files are not walked.
pub folder_away :
    (s : Store) (walk : Walk) (p q : FilePath) (c : OsName)
    → item_of s walk p c dir ≡ folder q
    → (p ≡ s.layout.root) × (c ≡ utf8 (codes "tmp"))
    → ⊥
unfolding item_of
folder_away s walk p q c same here = clash q (sym (rw ((is_temp_dir_iff s p c).1 here) refl) ∙ same)
  where
    clash : (q : FilePath) → nothing ≡ folder q → ⊥
    clash q e = cc

yielded-eq_yields : (o : Option Entry) (e : Entry) → yielded o ≡ yields e → o ≡ some e
yielded-eq_yields none e h = absurd (cc)
yielded-eq_yields (some y) e h = ap some (yields_injective h)
  where
    yields_injective : {x y : Entry} → yields x ≡ yields y → x ≡ y
    yields_injective h = cc

named-Below :
    (s : Store) (walk : Walk) (fs : Fs) (p : FilePath) (c : OsName) (n : Node) (e : Entry)
    → at (p ++ c ∷ []) fs ≡ some n
    → (n ≡ dir → ⊥)
    → named s walk (p ++ c ∷ []) (to_str c) ≡ yields e
    → Below s.layout walk fs p e
named-Below s walk fs p (utf8 t) n e there away same =
    let path = p ++ utf8 t ∷ [] in
    let ((d, f), names, made) =
      found_entry-eq_some s walk path t e (yielded-eq_yields (found_entry s walk path t) e same) in
    subst (λ o. below_some o) made (inside t there away names)
  where
    below_some : Option Entry → Type 0
    below_some none = Unit {0}
    below_some (some y) = Below s.layout walk fs p y
named-Below s walk fs p (raw b) n e there away same = absurd (cc)

-- What is yielded is a file that has such a name.
pub yields-Below :
    (s : Store) (walk : Walk) (fs : Fs) (p : FilePath) (c : OsName) (n : Node) (e : Entry)
    → at (p ++ c ∷ []) fs ≡ some n
    → item_of s walk p c n ≡ yields e
    → Below s.layout walk fs p e
unfolding item_of
yields-Below s walk fs p c dir e there same =
    absurd (no_entry (is_temp_dir s p c) (p ++ c ∷ []) same)
  where
    no_entry : (b : Bool) (q : FilePath) → (if b then nothing else folder q) ≡ yields e → ⊥
    no_entry true q h = cc
    no_entry false q h = cc
yields-Below s walk fs p c (file b r time) e there same =
    named-Below s walk fs p c (file b r time) e there (not_dir b r time) same
  where
    not_dir : (b : List ℕ) (r : Bool) (time : ℕ) → file b r time ≡ dir → ⊥
    not_dir b r time h = cc
yields-Below s walk fs p c special e there same =
    named-Below s walk fs p c special e there not_dir same
  where
    not_dir : special ≡ dir → ⊥
    not_dir h = cc
