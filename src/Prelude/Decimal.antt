-- ===== src/Prelude/Decimal.antt =====
-- The laws of `decimal`.
use Prim.Native.Nat.{ℕ, zero, suc, ◌+◌, ◌*◌, ◌-◌, ◌/◌, ◌%◌, ◌≤◌, ◌<◌}
use mathlib.Core.Path.{◌≡◌, refl}
use mathlib.Core.List.{[], ◌∷◌, ◌++◌}
use native.Mathlib.Omega.{arith}
use immure.Prelude.Lists.{length, length-append, All, All-append}
use immure.Prelude.Strings.{Text, decimal, decimal_digits}

abbrev pub IsDigit : ℕ → Type 0
IsDigit c = (48 ≤ c) × (c ≤ 57)

abbrev value_from : ℕ → Text → ℕ
value_from acc [] = acc
value_from acc (c ∷ s) = value_from (acc * 10 + (c - 48)) s

value_from-append :
    (acc : ℕ) (s t : Text) → value_from acc (s ++ t) ≡ value_from (value_from acc s) t
value_from-append acc [] t = refl
value_from-append acc (c ∷ s) t = value_from-append (acc * 10 + (c - 48)) s t

value-decimal_digits : (f n : ℕ) → n < f → value_from 0 (decimal_digits f n) ≡ n
unfolding decimal_digits
value-decimal_digits zero n h = absurd (omega arith)
value-decimal_digits (suc f) n h = ground (
  arith,
  value-decimal_digits f (n / 10),
  value_from-append 0 (decimal_digits f (n / 10)) ((48 + n % 10) ∷ []),
)

decimal_digits-IsDigit : (f n : ℕ) → All IsDigit (decimal_digits f n)
unfolding decimal_digits
decimal_digits-IsDigit zero n = tt
decimal_digits-IsDigit (suc f) n = ground (
  arith,
  All-append IsDigit (decimal_digits f (n / 10)) ((48 + n % 10) ∷ [])
      (decimal_digits-IsDigit f (n / 10)) (omega arith, tt),
)

pub decimal-IsDigit : (n : ℕ) → All IsDigit (decimal n)
unfolding decimal
decimal-IsDigit n = decimal_digits-IsDigit (suc n) n

pub decimal_nonempty : (n : ℕ) → 0 < length (decimal n)
unfolding decimal decimal_digits
decimal_nonempty n = ground (arith, length-append (decimal_digits n (n / 10)) ((48 + n % 10) ∷ []))

-- Two numbers that print alike are equal.
pub decimal_injective : (m n : ℕ) → decimal m ≡ decimal n → m ≡ n
unfolding decimal
decimal_injective m n e =
    cc (value-decimal_digits (suc m) m (omega arith), value-decimal_digits (suc n) n (omega arith))
