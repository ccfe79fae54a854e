-- ===== src/Layout/Aside.antt =====
-- The laws of `quarantine_name` and `parse_quarantined` of src/layout.rs.
use immure.Prelude.{
  ℕ, zero, suc, ◌<◌, Text, codes, Lacks, strip_suffix, rsplit_once, decimal, IsDigit,
  decimal-IsDigit, decimal_nonempty, decimal_injective, strip_suffix-append, strip_suffix-eq_some,
  strip_suffix-eq_none, rsplit_once-append, rsplit_once-eq_some, is_ascii_digit, to_ascii_lowercase,
  ◌≡◌, refl, ap, sym, ◌∙◌, true, Option, none, some, [], ◌∷◌, ◌++◌, append_assoc, append-nil,
  length, length-append, All, all_of, append_injective, Option-cases, inl, inr, arith,
}
use mathlib.Core.Path.{subst}
use immure.Digest.Types.{Digest}
use immure.Digest.Parse.{IsDigest, IsLowerHex}
use immure.Layout.{
  Form, raw, zstd, enc, Layout, entry_name, parse_name, zst_suffix, enc_suffix, quarantine_suffix,
  set_aside_name, parse_quarantined, quarantine_name,
}
use immure.Layout.Dots.{IsTail, split_at_dot}
use immure.Layout.Names.{
  IsLayout, tail, tail-IsTail, ReadsAs, parse_name-ReadsAs, parse_name-entry_name,
}

Lacks-of_digits : (s : Text) → All IsDigit s → Lacks b'.' s
Lacks-of_digits [] h = tt
Lacks-of_digits (c ∷ s) h = (λ e. omega (arith, h.0.0), Lacks-of_digits s h.1)

All-digits : (s : Text) → All IsDigit s → all_of is_ascii_digit s ≡ true
All-digits [] h = refl
All-digits (c ∷ s) h = ground (arith, h.0, All-digits s h.1)

-- A number is not what follows the dot of `.corrupt`.
no_word : (p q n : Text) → All IsDigit n → q ++ b'.' ∷ n ≡ p ++ quarantine_suffix → ⊥
no_word p q n h e = clash n h (pair_injective (same_split))
  where
    same_split : ◌≡◌ {A = Option (Text × Text)} (some (q, n)) (some (p, codes "corrupt"))
    same_split =
        sym (rsplit_once-append q n b'.' (Lacks-of_digits n h))
        ∙ ap (λ s. rsplit_once s b'.') e
        ∙ rsplit_once-append p (codes "corrupt") b'.' (omega arith)

    pair_injective :
        ◌≡◌ {A = Option (Text × Text)} (some (q, n)) (some (p, codes "corrupt"))
        → n ≡ codes "corrupt"
    pair_injective k = ground arith

    clash : (n : Text) → All IsDigit n → n ≡ codes "corrupt" → ⊥
    clash [] h k = cc
    clash (c ∷ n) h k = ground (arith, h.0)

numbered :
    (name n : Text)
    → All IsDigit n
    → 0 < length n
    → set_aside_name (name ++ quarantine_suffix ++ codes "." ++ n) ≡ some name
unfolding set_aside_name
numbered name n h k = ground (
  arith,
  append_assoc (name ++ quarantine_suffix) (codes ".") n,
  strip_suffix-eq_none (name ++ quarantine_suffix ++ codes "." ++ n) quarantine_suffix (λ p e.
      no_word p (name ++ quarantine_suffix) n h
        (sym (append_assoc (name ++ quarantine_suffix) (codes ".") n) ∙ e)),
  rsplit_once-append (name ++ quarantine_suffix) n b'.' (Lacks-of_digits n h),
  All-digits n h,
  strip_suffix-append name quarantine_suffix,
)

quarantine_name-suc :
    (name : Text) (k : ℕ)
    → quarantine_name name (suc k) ≡ name ++ quarantine_suffix ++ codes "." ++ decimal (suc k)
unfolding quarantine_name
quarantine_name-suc name k = ground arith

-- The name that was taken away is read back from the one it was set aside under, whatever the
-- serial number.
pub set_aside_name-quarantine_name :
    (name : Text) (serial : ℕ) → set_aside_name (quarantine_name name serial) ≡ some name
set_aside_name-quarantine_name name zero =
    unfold quarantine_name set_aside_name in
    ground (arith, strip_suffix-append name quarantine_suffix)
set_aside_name-quarantine_name name (suc k) =
    ap set_aside_name (quarantine_name-suc name k)
    ∙ numbered name (decimal (suc k)) (decimal-IsDigit (suc k)) (decimal_nonempty (suc k))

-- For a layout as `Layout::new` makes it, a well-formed digest, a form and a serial:
-- `parse_quarantined` reads the set-aside name as that digest and that form.
pub parse_quarantined-quarantine_name :
    (l : Layout) (d : Digest) (f : Form) (serial : ℕ)
    → IsLayout l
    → IsDigest d
    → parse_quarantined l (quarantine_name (entry_name l d f) serial) ≡ some (d, f)
unfolding parse_quarantined
parse_quarantined-quarantine_name l d f serial w v = ground (
  arith,
  set_aside_name-quarantine_name (entry_name l d f) serial,
  parse_name-entry_name l d f w v,
)

plain-ne-numbered :
    (name : Text) (k : ℕ) → quarantine_name name 0 ≡ quarantine_name name (suc k) → ⊥
unfolding quarantine_name
plain-ne-numbered name k e = omega (
  arith,
  ap length (e ∙ quarantine_name-suc name k),
  length-append (name ++ quarantine_suffix ++ codes ".") (decimal (suc k)),
  length-append (name ++ quarantine_suffix) (codes "."),
)

-- Two serials that give one entry name the same set-aside name are equal.
pub quarantine_name_injective :
    (name : Text) (m n : ℕ) → quarantine_name name m ≡ quarantine_name name n → m ≡ n
quarantine_name_injective name zero zero e = refl
quarantine_name_injective name zero (suc n) e = absurd (plain-ne-numbered name n e)
quarantine_name_injective name (suc m) zero e = absurd (plain-ne-numbered name m (sym e))
quarantine_name_injective name (suc m) (suc n) e =
    decimal_injective (suc m) (suc n)
      (append_injective (name ++ quarantine_suffix ++ codes ".") _ _ _ refl
        (sym (quarantine_name-suc name m) ∙ e ∙ quarantine_name-suc name n)).1

-- What `parse_quarantined` takes apart is a name with `.corrupt` behind it, and perhaps more.
set_aside_name-eq_some :
    (n m : Text) → set_aside_name n ≡ some m → (t : Text) × (n ≡ m ++ (quarantine_suffix ++ t))
unfolding set_aside_name
set_aside_name-eq_some n m h = elim (Option-cases (strip_suffix n quarantine_suffix)) [
  | inr (entry, e) ↦ ([], ground (arith, strip_suffix-eq_some n quarantine_suffix entry e))
  | inl e ↦ elim (Option-cases (rsplit_once n b'.')) [
    | inl r ↦ absurd (ground arith)
    | inr ((head, serial), r) ↦ (
      b'.' ∷ serial,
      rsplit_once-eq_some n b'.' head serial r
          ∙ ap (λ k. k ++ b'.' ∷ serial)
              (strip_suffix-eq_some head quarantine_suffix m (numbered_head head serial e r))
          ∙ append_assoc m quarantine_suffix (b'.' ∷ serial),
    )
  ]
]
  where
    numbered_head :
        (head serial : Text)
        → strip_suffix n quarantine_suffix ≡ none
        → rsplit_once n b'.' ≡ some (head, serial)
        → strip_suffix head quarantine_suffix ≡ some m
    numbered_head head serial e r = ground arith

hex_of_lower : (s : Text) → All IsLowerHex (to_ascii_lowercase s) → Lacks b'.' s
hex_of_lower [] h = tt
hex_of_lower (c ∷ s) h = (λ e. grind (arith, h.0), hex_of_lower s h.1)

-- What the tails of the forms add to the store's suffix.
abbrev added : Form → Text
added raw = []
added zstd = zst_suffix
added enc = zst_suffix ++ enc_suffix

tail_lem : (l : Layout) (f : Form) → IsLayout l → tail l f ≡ l.suffix ++ added f
tail_lem l raw w = sym (append-nil l.suffix)
tail_lem l zstd w = w.compressed
tail_lem l enc w = rw (w.sealed, w.compressed) (append_assoc l.suffix zst_suffix enc_suffix)

-- No form's tail goes on with `.corrupt` after another's.
added_clash : (f g : Form) (t : Text) → added g ≡ added f ++ (quarantine_suffix ++ t) → ⊥
added_clash raw raw t e = ground arith
added_clash raw zstd t e = ground arith
added_clash raw enc t e = ground arith
added_clash zstd raw t e = ground arith
added_clash zstd zstd t e = ground arith
added_clash zstd enc t e = ground arith
added_clash enc raw t e = ground arith
added_clash enc zstd t e = ground arith
added_clash enc enc t e = ground arith

-- One name cannot be an entry's, and an entry's with `.corrupt` behind it.
no_entry_aside :
    (l : Layout) (m : Text) (t : Text) (d d' : Digest) (f g : Form)
    → IsLayout l
    → ReadsAs l m d f
    → ReadsAs l (m ++ (quarantine_suffix ++ t)) d' g
    → ⊥
no_entry_aside l m t d d' f g w (v, (s, em, es)) (v', (s', em', es')) =
    added_clash f g t
      (append_injective l.suffix (added g) l.suffix (added f ++ (quarantine_suffix ++ t)) refl
        tails).1
  where
    dotless : (x : Text) (k : Digest) → IsDigest k → to_ascii_lowercase x ≡ k.text → Lacks b'.' x
    dotless x k u e = hex_of_lower x (subst (All IsLowerHex) (sym e) u.hex)

    with_tail : (x : Text) → IsTail x → IsTail (x ++ (quarantine_suffix ++ t))
    with_tail [] h = refl
    with_tail (c ∷ x) h = h

    whole : s' ++ tail l g ≡ s ++ (tail l f ++ (quarantine_suffix ++ t))
    whole = sym em' ∙ ap (λ x. x ++ (quarantine_suffix ++ t)) em ∙ append_assoc s (tail l f) _

    tails : l.suffix ++ added g ≡ l.suffix ++ (added f ++ (quarantine_suffix ++ t))
    tails =
        sym (tail_lem l g w)
        ∙ (split_at_dot s' (tail l g) s (tail l f ++ (quarantine_suffix ++ t))
            (dotless s' d' v' es') (dotless s d v es) (tail-IsTail l g w)
            (with_tail (tail l f) (tail-IsTail l f w)) whole).1
        ∙ ap (λ x. x ++ (quarantine_suffix ++ t)) (tail_lem l f w)
        ∙ append_assoc l.suffix (added f) _

-- For a layout as `Layout::new` makes it, a name that `parse_quarantined` reads is not read by
-- `parse_name`.
pub parse_name_of_quarantined :
    (l : Layout) (n : Text) (d : Digest) (f : Form)
    → IsLayout l
    → parse_quarantined l n ≡ some (d, f)
    → parse_name l n ≡ none
unfolding parse_quarantined
parse_name_of_quarantined l n d f w h = elim (Option-cases (set_aside_name n)) [
  | inl e ↦ absurd (ground arith)
  | inr (m, e) ↦ elim (Option-cases (parse_name l n)) [
    | inl r ↦ r
    | inr ((d', g), r) ↦
        let (t, split) = set_aside_name-eq_some n m e in
        absurd (
          no_entry_aside l m t d d' f g w (parse_name-ReadsAs l m d f (ground arith))
            (subst (λ x. ReadsAs l x d' g) split (parse_name-ReadsAs l n d' g r)))
  ]
]
