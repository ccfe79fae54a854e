-- ===== src/Digest/Types.antt =====
-- The types of src/digest.rs that the errors name: `Algorithm` and `Digest`.
use immure.Prelude.{ℕ, ◌/◌, Text, length}

pub data Algorithm : Type 0 where
  sha256 sha384 sha512 blake3 : Algorithm

unfoldable pub hex_len : Algorithm → ℕ
hex_len sha256 = 64
hex_len blake3 = 64
hex_len sha384 = 96
hex_len sha512 = 128

unfoldable pub max_depth : Algorithm → ℕ
unfolding hex_len
max_depth a = hex_len a / 2

pub record Digest : Type 0 where
  pub text : Text

abbrev pub len : Digest → ℕ
len d = length d.text
