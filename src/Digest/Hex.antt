-- ===== src/Digest/Hex.antt =====
-- The laws of `to_hex` of src/digest.rs.
use immure.Prelude.{
  ℕ, ◌*◌, ◌/◌, ◌%◌, ◌<◌, ◌≡◌, refl, List, [], ◌∷◌, length, All, cons_injective, arith,
}
use mathlib.Core.Path.{ap₂}
use immure.Digest.{to_hex, hex_digit}
use immure.Digest.Parse.{IsLowerHex}

abbrev pub IsByte : ℕ → Type 0
IsByte b = b < 256

pub length-to_hex : (bs : List ℕ) → length (to_hex bs) ≡ length bs * 2
unfolding to_hex
length-to_hex [] = refl
length-to_hex (b ∷ bs) = omega (arith, length-to_hex bs)

hex_digit-IsLowerHex : (n : ℕ) → n < 16 → IsLowerHex (hex_digit n)
hex_digit-IsLowerHex n h = ground arith

pub to_hex-IsLowerHex : (bs : List ℕ) → All IsByte bs → All IsLowerHex (to_hex bs)
unfolding to_hex
to_hex-IsLowerHex [] h = tt
to_hex-IsLowerHex (b ∷ bs) h = (
  hex_digit-IsLowerHex (b / 16) (omega (arith, h.0)),
  (hex_digit-IsLowerHex (b % 16) (omega arith), to_hex-IsLowerHex bs h.1),
)

hex_digit_injective : (m n : ℕ) → m < 16 → n < 16 → hex_digit m ≡ hex_digit n → m ≡ n
hex_digit_injective m n h k e = ground arith

byte_of_digits :
    (a b : ℕ)
    → a < 256
    → b < 256
    → hex_digit (a / 16) ≡ hex_digit (b / 16)
    → hex_digit (a % 16) ≡ hex_digit (b % 16)
    → a ≡ b
byte_of_digits a b ha hb high low = omega (
  arith,
  hex_digit_injective (a / 16) (b / 16) (omega arith) (omega arith) high,
  hex_digit_injective (a % 16) (b % 16) (omega arith) (omega arith) low,
)

-- Two lists of bytes with the same hexadecimal print are equal.
pub to_hex_injective :
    (xs bs : List ℕ) → All IsByte xs → All IsByte bs → to_hex xs ≡ to_hex bs → xs ≡ bs
unfolding to_hex
to_hex_injective [] [] ha hb e = refl
to_hex_injective [] (b ∷ bs) ha hb e = cc
to_hex_injective (a ∷ xs) [] ha hb e = cc
to_hex_injective (a ∷ xs) (b ∷ bs) ha hb e =
    let (high, rest) = cons_injective (hex_digit (a / 16)) (hex_digit (b / 16)) _ _ e in
    let (low, tail) =
      cons_injective (hex_digit (a % 16)) (hex_digit (b % 16)) (to_hex xs) (to_hex bs) rest in
    ap₂ (λ (c : ℕ) (cs : List ℕ). c ∷ cs) (byte_of_digits a b ha.0 hb.0 high low)
      (to_hex_injective xs bs ha.1 hb.1 tail)
