-- ===== src/Digest/Parse.antt =====
-- The laws of `Digest::parse` and `Digest::shards` of src/digest.rs.
use mathlib.Core.Path.{subst}
use immure.Prelude.{
  ℕ, zero, suc, ◌+◌, ◌*◌, ◌%◌, ◌≤◌, ◌<◌, Text, ascii_lower, to_ascii_lowercase, is_ascii_hexdigit,
  length-to_ascii_lowercase, ◌≡◌, refl, ap, ◌⊎◌, inl, inr, Bool, true, not, ◌||◌, List, [], ◌∷◌,
  ◌++◌, length, take, drop, All, all_of, length-take, length-drop, ◌==◌, ==_iff, ltb, ltb→lt,
  take_split, drop-drop, concat, if◌then◌else◌, sym, ◌∙◌, Bool-cases, and-eq-true, arith,
}
use immure.Error.{Error, ok, err, digest_too_short}
use immure.Digest.Types.{Digest, len}
use immure.Digest.{parse, pieces, shards}

abbrev pub IsLowerHex : ℕ → Type 0
IsLowerHex c = (48 ≤ c) × (c ≤ 57) ⊎ (97 ≤ c) × (c ≤ 102)

-- What a digest in hand always is.
pub record IsDigest (d : Digest) : Type 0 where
  pub nonempty : 0 < len d
  pub even : len d % 2 ≡ 0
  pub hex : All IsLowerHex d.text

lower-IsLowerHex : (c : ℕ) → is_ascii_hexdigit c ≡ true → IsLowerHex (ascii_lower c)
lower-IsLowerHex c h = ground arith

hexdigit_of_lower : (c : ℕ) → IsLowerHex (ascii_lower c) → is_ascii_hexdigit c ≡ true
hexdigit_of_lower c h = ground arith

All-lower : (s : Text) → all_of is_ascii_hexdigit s ≡ true → All IsLowerHex (to_ascii_lowercase s)
All-lower [] h = tt
All-lower (c ∷ s) h =
    let (now, later) = and-eq-true (is_ascii_hexdigit c) (all_of is_ascii_hexdigit s) h in
    (lower-IsLowerHex c now, All-lower s later)

All-hexdigit :
    (s : Text) → All IsLowerHex (to_ascii_lowercase s) → all_of is_ascii_hexdigit s ≡ true
All-hexdigit [] h = refl
All-hexdigit (c ∷ s) h = ground (arith, hexdigit_of_lower c h.0, All-hexdigit s h.1)

accepted :
    (a b : Bool) (e : Error) (d d' : Digest)
    → (if not a || not b then err e else ok d') ≡ ok d
    → (a ≡ true) × (b ≡ true) × (d' ≡ d)
accepted a b e d d' h = ground arith

accepts :
    (a b : Bool) (e : Error) (d : Digest)
    → a ≡ true
    → b ≡ true
    → (if not a || not b then err e else ok d) ≡ ok d
accepts a b e d h k = ground arith

lower_IsDigest :
    (s : Text)
    → 0 < length s
    → (length s % 2 == 0) ≡ true
    → all_of is_ascii_hexdigit s ≡ true
    → IsDigest (record { text = to_ascii_lowercase s })
lower_IsDigest s n e h = record {
  nonempty = omega (arith, length-to_ascii_lowercase s);
  even = rw (length-to_ascii_lowercase s) ((==_iff _ _).0 e);
  hex = All-lower s h;
}

-- A digest that `parse` gives is not empty, has an even number of characters, all of them
-- lowercase hexadecimal digits, and is the text in lower case.
pub parse-IsDigest :
    (s : Text) (d : Digest) → parse s ≡ ok d → IsDigest d × (d.text ≡ to_ascii_lowercase s)
unfolding parse
parse-IsDigest [] d h = cc
parse-IsDigest (c ∷ s) d h =
    let (e, x, t) = accepted _ (all_of is_ascii_hexdigit (c ∷ s)) _ d _ h in
    (
      subst IsDigest t (lower_IsDigest (c ∷ s) (omega arith) e x),
      ap (λ (k : Digest). k.text) (sym t),
    )

-- A text that lowers to the text of a well-formed digest parses to that digest.
pub parse_complete :
    (s : Text) (d : Digest) → IsDigest d → to_ascii_lowercase s ≡ d.text → parse s ≡ ok d
unfolding parse
parse_complete [] d w e = absurd (omega (arith, w.nonempty, ap length e))
parse_complete (c ∷ s) d w e =
    accepts (length (c ∷ s) % 2 == 0) (all_of is_ascii_hexdigit (c ∷ s)) _ _
      ((==_iff _ 0).1 (omega (arith, length-to_ascii_lowercase (c ∷ s), ap length e, w.even)))
      (All-hexdigit (c ∷ s) (subst (All IsLowerHex) (sym e) w.hex))
    ∙ ap (λ (t : Text). ok (record { text = t })) e

lower_of_IsLowerHex : (s : Text) → All IsLowerHex s → to_ascii_lowercase s ≡ s
lower_of_IsLowerHex [] h = refl
lower_of_IsLowerHex (c ∷ s) h = ground (arith, lower_of_IsLowerHex s h.1, h.0)

-- A digest's own text parses back to it.
pub parse-text : (d : Digest) → IsDigest d → parse d.text ≡ ok d
parse-text d w = parse_complete d.text d w (lower_of_IsLowerHex d.text w.hex)

length-pieces : (t : Text) (i count : ℕ) → length (pieces t i count) ≡ count
unfolding pieces
length-pieces t i zero = refl
length-pieces t i (suc count) = ap suc (length-pieces t (suc i) count)

abbrev pub HasTwo : Text → Type 0
HasTwo p = length p ≡ 2

pieces-HasTwo :
    (t : Text) (i count : ℕ) → (i + count) * 2 ≤ length t → All HasTwo (pieces t i count)
unfolding pieces
pieces-HasTwo t i zero h = tt
pieces-HasTwo t i (suc count) h = (
  omega (arith, length-take 2 (drop (i * 2) t), length-drop (i * 2) t),
  pieces-HasTwo t (suc i) count (omega arith),
)

concat-pieces :
    (t : Text) (i count : ℕ) → concat (pieces t i count) ≡ take (count * 2) (drop (i * 2) t)
unfolding pieces
concat-pieces t i zero = refl
concat-pieces t i (suc count) =
    ap (λ r. take 2 (drop (i * 2) t) ++ r)
      (concat-pieces t (suc i) count
        ∙ ap (take (count * 2)) (sym (drop-drop (i * 2) 2 (suc i * 2) t (omega arith))))
    ∙ sym (take_split 2 (count * 2) (suc count * 2) (drop (i * 2) t) (omega arith))

-- Either `shards` gives `depth` pieces of two characters, which concatenate to the front of
-- the digest, and the digest is long enough; or the digest is too short and the error says so,
-- with the depth and the length needed.
pub shards_lem :
    (d : Digest) (depth : ℕ)
    → ((ps : List Text) × (shards d depth ≡ ok ps)
        × (depth * 2 ≤ len d)
        × (length ps ≡ depth)
        × All HasTwo ps
        × (concat ps ≡ take (depth * 2) d.text))
      ⊎ ((shards d depth ≡ err (digest_too_short d depth (depth * 2))) × (len d < depth * 2))
unfolding shards
shards_lem d depth = elim (Bool-cases (ltb (len d) (depth * 2))) [
  | inl short ↦ inr (rw short, ltb→lt _ _ short)
  | inr enough ↦ inl (
    pieces d.text 0 depth,
    rw enough,
    ground arith,
    length-pieces d.text 0 depth,
    pieces-HasTwo d.text 0 depth (ground arith),
    concat-pieces d.text 0 depth,
  )
]
