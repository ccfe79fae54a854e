-- ===== src/Prelude/Affix.antt =====
-- Laws of the tests and cuts of `Text`: equality, `strip_suffix`, `split_once`, `rsplit_once` and
-- the lower case.
use Prim.Native.Nat.{ℕ, suc}
use mathlib.Core.Path.{◌≡◌, refl, ap}
use mathlib.Core.Logic.{◌↔◌, inl, inr}
use mathlib.Core.Bool.{true, false}
use mathlib.Core.List.{[], ◌∷◌, ◌++◌}
use mathlib.Core.Option.{none, some}
use native.Mathlib.Omega.{arith}
use immure.Prelude.Tests.{Bool-cases, Option-cases}
use immure.Prelude.Lists.{length, length-append, All}
use immure.Prelude.Strings.{
  Text, text_eq, strip_suffix, split_once, rsplit_once, to_ascii_lowercase,
}

text_eq_refl : (s : Text) → text_eq s s ≡ true
unfolding text_eq
text_eq_refl [] = refl
text_eq_refl (c ∷ s) = ground (arith, text_eq_refl s)

eq_of_text_eq : (s t : Text) → text_eq s t ≡ true → s ≡ t
unfolding text_eq
eq_of_text_eq [] [] h = refl
eq_of_text_eq [] (d ∷ t) h = cc
eq_of_text_eq (c ∷ s) [] h = cc
eq_of_text_eq (c ∷ s) (d ∷ t) h = ground (arith, eq_of_text_eq s t)

pub text_eq_iff : (s t : Text) → (text_eq s t ≡ true) ↔ (s ≡ t)
text_eq_iff s t = (eq_of_text_eq s t, λ e. rw e (text_eq_refl t))

pub text_eq-ne : (s t : Text) → (s ≡ t → ⊥) → text_eq s t ≡ false
text_eq-ne s t h = elim (Bool-cases (text_eq s t)) [
  | inl e ↦ absurd (h (eq_of_text_eq s t e))
  | inr e ↦ e
]

-- A text is not equal to one with more in front of it.
append-ne_self : (c : ℕ) (p t : Text) → (c ∷ (p ++ t) ≡ t) → ⊥
append-ne_self c p t e = omega (arith, ap length e, length-append p t)

pub strip_suffix-append : (p t : Text) → strip_suffix (p ++ t) t ≡ some p
unfolding strip_suffix
strip_suffix-append [] [] = refl
strip_suffix-append [] (d ∷ t) = rw (text_eq_refl (d ∷ t))
strip_suffix-append (c ∷ p) t =
    rw (text_eq-ne (c ∷ (p ++ t)) t (append-ne_self c p t)) (rw (strip_suffix-append p t))

pub strip_suffix-eq_some : (s t p : Text) → strip_suffix s t ≡ some p → s ≡ p ++ t
unfolding strip_suffix
strip_suffix-eq_some [] t p h = ground (arith, eq_of_text_eq [] t)
strip_suffix-eq_some (c ∷ s) t [] h = ground (arith, eq_of_text_eq (c ∷ s) t)
strip_suffix-eq_some (c ∷ s) t (d ∷ p) h = ground (arith, strip_suffix-eq_some s t p)

pub strip_suffix-eq_none : (s t : Text) → ((p : Text) → s ≡ p ++ t → ⊥) → strip_suffix s t ≡ none
strip_suffix-eq_none s t h = elim (Option-cases (strip_suffix s t)) [
  | inl e ↦ e
  | inr (p, e) ↦ absurd (h p (strip_suffix-eq_some s t p e))
]

-- The text does not hold the character.
abbrev pub Lacks : ℕ → Text → Type 0
Lacks c s = All (λ d. d ≡ c → ⊥) s

pub split_once-append : (a b : Text) (c : ℕ) → Lacks c a → split_once (a ++ c ∷ b) c ≡ some (a, b)
unfolding split_once
split_once-append [] b c h = ground arith
split_once-append (d ∷ a) b c h = rw (split_once-append a b c h.1) (ground (arith, h.0))

pub split_once-eq_some :
    (s : Text) (c : ℕ) (a b : Text) → split_once s c ≡ some (a, b) → (s ≡ a ++ c ∷ b) × Lacks c a
unfolding split_once
split_once-eq_some [] c a b h = cc
split_once-eq_some (d ∷ s) c [] b h = ground arith
split_once-eq_some (d ∷ s) c (e ∷ a) b h = ground (arith, split_once-eq_some s c a b)

rsplit_once-Lacks : (b : Text) (c : ℕ) → Lacks c b → rsplit_once b c ≡ none
unfolding rsplit_once
rsplit_once-Lacks [] c h = refl
rsplit_once-Lacks (d ∷ b) c h = ground (arith, rsplit_once-Lacks b c h.1, h.0)

pub rsplit_once-append : (a b : Text) (c : ℕ) → Lacks c b → rsplit_once (a ++ c ∷ b) c ≡ some (a, b)
unfolding rsplit_once
rsplit_once-append [] b c h = ground (arith, rsplit_once-Lacks b c h)
rsplit_once-append (d ∷ a) b c h = ground (arith, rsplit_once-append a b c h)

pub rsplit_once-eq_some :
    (s : Text) (c : ℕ) (a b : Text) → rsplit_once s c ≡ some (a, b) → s ≡ a ++ c ∷ b
unfolding rsplit_once
rsplit_once-eq_some [] c a b h = cc
rsplit_once-eq_some (d ∷ s) c a b h = elim (Option-cases (rsplit_once s c)) [
  | inl e ↦ ground arith
  | inr ((a', b'), e) ↦ ground (arith, rsplit_once-eq_some s c a' b' e)
]

pub length-to_ascii_lowercase : (s : Text) → length (to_ascii_lowercase s) ≡ length s
length-to_ascii_lowercase [] = refl
length-to_ascii_lowercase (c ∷ s) = ap suc (length-to_ascii_lowercase s)

pub to_ascii_lowercase_idem :
    (s : Text) → to_ascii_lowercase (to_ascii_lowercase s) ≡ to_ascii_lowercase s
to_ascii_lowercase_idem [] = refl
to_ascii_lowercase_idem (c ∷ s) = ground (arith, to_ascii_lowercase_idem s)
