-- ===== src/Temp/Names.antt =====
-- The names of temporary files in src/temp.rs.
use immure.Prelude.{
  ◌↔◌, ℕ, ◌≡◌, refl, ap, sym, ◌∙◌, Text, codes, true, false, not, ◌&&◌, Option, some, [], ◌∷◌, ◌++◌,
  append_assoc, is_empty, all_of, All, length, ◌<◌, strip_suffix, split_once, strip_suffix-append,
  split_once-append, strip_suffix-eq_some, split_once-eq_some, Lacks, decimal, decimal-IsDigit,
  decimal_nonempty, decimal_injective, All-append, IsDigit, is_ascii_digit, Option-cases, inl, inr,
  arith,
}
use immure.Temp.{temp_name, is_temp_name, temp_suffix}

-- A text that a writer of some process could have chosen.
abbrev pub IsTempName : Text → Type 0
IsTempName name =
    (pid serial : Text) × (0 < length pid)
    × (0 < length serial)
    × All IsDigit (pid ++ serial)
    × (name ≡ pid ++ codes "-" ++ serial ++ temp_suffix)

All-digits : (s : Text) → (all_of is_ascii_digit s ≡ true) → All IsDigit s
All-digits [] h = tt
All-digits (c ∷ s) h = (ground arith, All-digits s (ground arith))

digits-All : (s : Text) → All IsDigit s → all_of is_ascii_digit s ≡ true
digits-All [] h = refl
digits-All (c ∷ s) h = ground (arith, digits-All s h.1, h.0)

nonempty_length : (s : Text) → is_empty s ≡ false → 0 < length s
nonempty_length [] h = cc
nonempty_length (c ∷ s) h = omega arith

length_nonempty : (s : Text) → 0 < length s → is_empty s ≡ false
length_nonempty [] h = absurd (omega arith)
length_nonempty (c ∷ s) h = refl

digits_lack_dash : (s t : Text) → All IsDigit (s ++ t) → Lacks b'-' s
digits_lack_dash [] t h = tt
digits_lack_dash (c ∷ s) t h = (λ e. ground (arith, h.0), digits_lack_dash s t h.1)

stem_split :
    (pid serial : Text)
    → pid ++ codes "-" ++ serial ++ temp_suffix ≡ (pid ++ b'-' ∷ serial) ++ temp_suffix
stem_split pid serial = simp (append_assoc)

from_parts :
    (name stem pid serial : Text)
    → strip_suffix name temp_suffix ≡ some stem
    → split_once stem b'-' ≡ some (pid, serial)
    → (not (is_empty pid) && (not (is_empty serial) && all_of is_ascii_digit (pid ++ serial)))
      ≡ true
    → IsTempName name
from_parts name stem pid serial e e2 h = (
  pid,
  serial,
  nonempty_length pid (ground arith),
  nonempty_length serial (ground arith),
  All-digits (pid ++ serial) (ground arith),
  strip_suffix-eq_some name temp_suffix stem e
      ∙ ap (λ s. s ++ temp_suffix) (split_once-eq_some stem b'-' pid serial e2).0
      ∙ sym (stem_split pid serial),
)

read_parts :
    (name stem pid serial : Text)
    → strip_suffix name temp_suffix ≡ some stem
    → split_once stem b'-' ≡ some (pid, serial)
    → is_temp_name name
      ≡ (not (is_empty pid) && (not (is_empty serial) && all_of is_ascii_digit (pid ++ serial)))
unfolding is_temp_name
read_parts name stem pid serial e e2 = simp (is_temp_name, e, e2)

is_temp_name-IsTempName : (name : Text) → is_temp_name name ≡ true → IsTempName name
unfolding is_temp_name
is_temp_name-IsTempName name h = elim (Option-cases (strip_suffix name temp_suffix)) [
  | inl e ↦ ground (arith, e)
  | inr (stem, e) ↦ elim (Option-cases (split_once stem b'-')) [
    | inl e2 ↦ ground (arith, e, e2)
    | inr ((pid, serial), e2) ↦
        from_parts name stem pid serial e e2 (sym (read_parts name stem pid serial e e2) ∙ h)
  ]
]

is_temp_name_complete : (name : Text) → IsTempName name → is_temp_name name ≡ true
unfolding is_temp_name
is_temp_name_complete name (pid, serial, p, q, digits, e) =
    let shape = e ∙ stem_split pid serial in
    read_parts name (pid ++ b'-' ∷ serial) pid serial
      (ap (λ n. strip_suffix n temp_suffix) shape
        ∙ strip_suffix-append (pid ++ b'-' ∷ serial) temp_suffix)
      (split_once-append pid serial b'-' (digits_lack_dash pid serial digits))
    ∙ ground
        (arith, length_nonempty pid p, length_nonempty serial q, digits-All (pid ++ serial) digits)

-- `is_temp_name` accepts a name exactly when it is two nonempty texts of digits with a dash
-- between them, followed by `.tmp`.
pub is_temp_name_iff : (name : Text) → (is_temp_name name ≡ true) ↔ IsTempName name
is_temp_name_iff name = (is_temp_name-IsTempName name, is_temp_name_complete name)

pub is_temp_name-temp_name : (pid serial : ℕ) → is_temp_name (temp_name pid serial) ≡ true
unfolding temp_name
is_temp_name-temp_name pid serial = is_temp_name_complete (temp_name pid serial) (
  decimal pid,
  decimal serial,
  decimal_nonempty pid,
  decimal_nonempty serial,
  All-append IsDigit (decimal pid) (decimal serial) (decimal-IsDigit pid) (decimal-IsDigit serial),
  refl,
)

left_digits : (s t : Text) → All IsDigit s → Lacks b'-' s
left_digits [] t h = tt
left_digits (c ∷ s) t h = (λ e. ground (arith, h.0), left_digits s t h.1)

dash_first : (s t : Text) → s ++ codes "-" ++ t ++ temp_suffix ≡ s ++ b'-' ∷ (t ++ temp_suffix)
dash_first s t = simp (append_assoc)

temp_name_parts :
    (pid serial : ℕ)
    → split_once (temp_name pid serial) b'-' ≡ some (decimal pid, decimal serial ++ temp_suffix)
unfolding temp_name
temp_name_parts pid serial =
    ap (λ n. split_once n b'-') (dash_first (decimal pid) (decimal serial))
    ∙ split_once-append (decimal pid) (decimal serial ++ temp_suffix) b'-'
        (left_digits (decimal pid) [] (decimal-IsDigit pid))

some_injective : {s t : Text} → Option.some s ≡ some t → s ≡ t
some_injective e = cc

without_suffix : (s t : Text) → s ++ temp_suffix ≡ t ++ temp_suffix → s ≡ t
without_suffix s t e = some_injective (
    sym (strip_suffix-append s temp_suffix)
    ∙ ap (λ n. strip_suffix n temp_suffix) e
    ∙ strip_suffix-append t temp_suffix)

-- Two temporary names that are equal come from the same process number and the same serial.
pub temp_name_injective :
    (pid serial pid' serial' : ℕ)
    → temp_name pid serial ≡ temp_name pid' serial'
    → (pid ≡ pid') × (serial ≡ serial')
temp_name_injective pid serial pid' serial' e =
    let parts =
      sym (temp_name_parts pid serial)
      ∙ ap (λ n. split_once n b'-') e
      ∙ temp_name_parts pid' serial' in
    (
      decimal_injective pid pid' (cc),
      decimal_injective serial serial' (without_suffix (decimal serial) (decimal serial') (cc)),
    )
