-- ===== src/Layout/Names.antt =====
-- The laws of `file_name` and `parse_name` of src/layout.rs.
use immure.Prelude.{
  ℕ, ◌+◌, ◌<◌, Text, codes, trim, strip_suffix, text_eq, strip_suffix-append, strip_suffix-eq_some,
  strip_suffix-eq_none, to_ascii_lowercase, ◌≡◌, refl, ap, sym, ◌∙◌, true, ◌||◌, Option, none, some,
  [], ◌∷◌, ◌++◌, append_assoc, length, length-append, take, is_empty, if◌then◌else◌, Bool-cases,
  Option-cases, inl, inr, arith,
}
use immure.FilePath.{FilePath}
use immure.Error.{Error, Result, ok, err}
use immure.Digest.Types.{Digest}
use immure.Digest.{parse}
use immure.Digest.Parse.{IsDigest, parse-IsDigest, parse-text}
use immure.Layout.{
  Form, raw, zstd, enc, Layout, layout, normalise_suffix, entry_name, with_form, parse_name,
  zst_suffix, enc_suffix,
}
use immure.Layout.Dots.{IsTail, Lacks-of_hex, split_at_dot, Lacks-of_shorter}

-- What `Layout::new` makes of any suffix.
pub record IsLayout (l : Layout) : Type 0 where
  pub is_tail : IsTail l.suffix
  pub compressed : l.compressed_suffix ≡ l.suffix ++ zst_suffix
  pub sealed : l.sealed_suffix ≡ l.compressed_suffix ++ enc_suffix

first_dot : (c : ℕ) (s : Text) → text_eq (c ∷ []) (codes ".") ≡ true → c ≡ b'.'
unfolding text_eq
first_dot c s h = ground arith

normalised :
    (s : Text)
    → IsTail (
        if is_empty s || text_eq s (codes ".")
        then []
        else if text_eq (take 1 s) (codes ".")
        then s
        else b'.' ∷ s)
normalised [] = tt
normalised (c ∷ s) = elim (Bool-cases (text_eq (c ∷ s) (codes "."))) [
  | inl dot ↦ rw dot tt
  | inr more ↦ elim (Bool-cases (text_eq (c ∷ []) (codes "."))) [
    | inl dotted ↦ rw (more, dotted) (first_dot c s dotted)
    | inr bare ↦ rw (more, bare) refl
  ]
]

-- Whatever suffix is asked for, `Layout::new` keeps one that is empty or begins with a dot,
-- the compressed suffix is that with `.zst`, and the sealed suffix is that with `.zst.enc`.
pub layout-IsLayout : (root : FilePath) (s : Text) (depth : ℕ) → IsLayout (layout root s depth)
unfolding layout normalise_suffix
layout-IsLayout root s depth = record {
  is_tail = normalised (trim s);
  compressed = refl;
  sealed = refl;
}

-- What an entry's name has behind its digest.
abbrev pub tail : Layout → Form → Text
tail l raw = l.suffix
tail l zstd = l.compressed_suffix
tail l enc = l.sealed_suffix

IsTail-append : (s t : Text) → IsTail s → IsTail (b'.' ∷ t) → IsTail (s ++ b'.' ∷ t)
IsTail-append [] t h k = k
IsTail-append (c ∷ s) t h k = h

pub tail-IsTail : (l : Layout) (f : Form) → IsLayout l → IsTail (tail l f)
tail-IsTail l raw w = w.is_tail
tail-IsTail l zstd w = rw w.compressed (IsTail-append l.suffix _ w.is_tail refl)
tail-IsTail l enc w =
    rw (w.sealed, w.compressed)
      (tail-append_tail (l.suffix ++ zst_suffix) (IsTail-append l.suffix _ w.is_tail refl))
  where
    tail-append_tail : (s : Text) → IsTail s → IsTail (s ++ enc_suffix)
    tail-append_tail s h = IsTail-append s _ h refl

pub entry_name_lem :
    (l : Layout) (d : Digest) (f : Form) → IsLayout l → entry_name l d f ≡ d.text ++ tail l f
unfolding entry_name
entry_name_lem l d raw w = refl
entry_name_lem l d zstd w = rw w.compressed (append_assoc d.text l.suffix zst_suffix)
entry_name_lem l d enc w =
    ap (λ s. s ++ enc_suffix) (append_assoc d.text l.suffix zst_suffix)
    ∙ append_assoc d.text (l.suffix ++ zst_suffix) enc_suffix
    ∙ rw (w.sealed, w.compressed)

-- A longer tail is not found at the end of a name with a shorter one.
no_longer_tail :
    (l : Layout) (d : Digest) (f g : Form)
    → IsLayout l
    → IsDigest d
    → length (tail l f) < length (tail l g)
    → strip_suffix (d.text ++ tail l f) (tail l g) ≡ none
no_longer_tail l d f g w v h = strip_suffix-eq_none (d.text ++ tail l f) (tail l g) λ p e.
    let front =
      Lacks-of_shorter p (tail l g) d.text (tail l f) (Lacks-of_hex d.text v.hex) (omega arith)
        (sym e) in
    let same =
      split_at_dot p (tail l g) d.text (tail l f) front (Lacks-of_hex d.text v.hex)
        (tail-IsTail l g w) (tail-IsTail l f w) (sym e) in
    omega (arith, ap length same.1)

length-compressed : (l : Layout) → IsLayout l → length l.compressed_suffix ≡ length l.suffix + 4
length-compressed l w = omega (arith, ap length w.compressed, length-append l.suffix zst_suffix)

length-sealed : (l : Layout) → IsLayout l → length l.sealed_suffix ≡ length l.suffix + 8
length-sealed l w =
    omega (
      arith,
      ap length w.sealed,
      length-append l.compressed_suffix enc_suffix,
      length-compressed l w,
    )

-- For a layout as `Layout::new` makes it and a well-formed digest, `parse_name` reads the file
-- name of every form back as that digest and that form.
pub parse_name-entry_name :
    (l : Layout) (d : Digest) (f : Form)
    → IsLayout l
    → IsDigest d
    → parse_name l (entry_name l d f) ≡ some (d, f)
unfolding parse_name
parse_name-entry_name l d raw w v = ground (
  arith,
  entry_name_lem l d raw w,
  no_longer_tail l d raw enc w v (omega (arith, length-sealed l w)),
  no_longer_tail l d raw zstd w v (omega (arith, length-compressed l w)),
  strip_suffix-append d.text l.suffix,
  parse-text d v,
)
parse_name-entry_name l d zstd w v = ground (
  arith,
  entry_name_lem l d zstd w,
  no_longer_tail l d zstd enc w v (omega (arith, length-sealed l w, length-compressed l w)),
  strip_suffix-append d.text l.compressed_suffix,
  parse-text d v,
)
parse_name-entry_name l d enc w v =
    ground
      (arith, entry_name_lem l d enc w, strip_suffix-append d.text l.sealed_suffix, parse-text d v)

-- A name that was read: a text that is the digest but for the case of its letters, and the tail.
abbrev pub ReadsAs : Layout → Text → Digest → Form → Type 0
ReadsAs l n d f =
    IsDigest d × ((stem : Text) × (n ≡ stem ++ tail l f) × (to_ascii_lowercase stem ≡ d.text))

with_form-eq_some :
    (r : Result Error Digest) (f : Form) (d : Digest) (g : Form)
    → with_form r f ≡ some (d, g)
    → (r ≡ ok d) × (f ≡ g)
with_form-eq_some (ok d') f d g h = ground arith
with_form-eq_some (err e) f d g h = cc

with_form-ReadsAs :
    (l : Layout) (n stem : Text) (f : Form) (d : Digest) (g : Form)
    → n ≡ stem ++ tail l f
    → with_form (parse stem) f ≡ some (d, g)
    → ReadsAs l n d g
with_form-ReadsAs l n stem f d g e h =
    let (parsed, same) = with_form-eq_some (parse stem) f d g h in
    let (valid, text) = parse-IsDigest stem d parsed in
    (valid, (stem, e ∙ ap (λ k. stem ++ tail l k) same, sym text))

-- A name that `parse_name` reads as a digest and a form is a text that lowers to the digest's,
-- followed by the form's suffixes, and the digest is well formed.
pub parse_name-ReadsAs :
    (l : Layout) (n : Text) (d : Digest) (f : Form) → parse_name l n ≡ some (d, f) → ReadsAs l n d f
unfolding parse_name
parse_name-ReadsAs l n d f h = elim (Option-cases (strip_suffix n l.sealed_suffix)) [
  | inr (stem, e) ↦
      with_form-ReadsAs l n stem enc d f (strip_suffix-eq_some n _ stem e) (ground arith)
  | inl e ↦ elim (Option-cases (strip_suffix n l.compressed_suffix)) [
    | inr (stem, c) ↦
        with_form-ReadsAs l n stem zstd d f (strip_suffix-eq_some n _ stem c) (ground arith)
    | inl c ↦ elim (Option-cases (strip_suffix n l.suffix)) [
      | inr (stem, p) ↦
          with_form-ReadsAs l n stem raw d f (strip_suffix-eq_some n _ stem p) (ground arith)
      | inl p ↦ absurd (ground arith)
    ]
  ]
]

pub some_pair_injective :
    (d d' : Digest) (f f' : Form)
    → ◌≡◌ {A = Option (Digest × Form)} (some (d, f)) (some (d', f'))
    → (d ≡ d') × (f ≡ f')
some_pair_injective d d' f f' e = ground arith

-- For a layout as `Layout::new` makes it, two well-formed digests that have the same file name
-- in some forms are equal, and so are the forms.
pub entry_name_injective :
    (l : Layout) (d d' : Digest) (f f' : Form)
    → IsLayout l
    → IsDigest d
    → IsDigest d'
    → entry_name l d f ≡ entry_name l d' f'
    → (d ≡ d') × (f ≡ f')
entry_name_injective l d d' f f' w v v' e = some_pair_injective d d' f f' (
    sym (parse_name-entry_name l d f w v)
    ∙ ap (parse_name l) e
    ∙ parse_name-entry_name l d' f' w v')
