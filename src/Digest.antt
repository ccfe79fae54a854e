-- ===== src/Digest.antt =====
-- src/digest.rs: the names entries are stored under. SHA-2 and BLAKE3 are other crates' code and
-- enter as the parameter `Hashes`; `S` is the type of their states. The laws are in the children.
pub mod Types
pub mod Parse
pub mod Hex
pub mod Hashing
use immure.Prelude.{
  ℕ, zero, suc, ◌+◌, ◌-◌, ◌*◌, ◌/◌, ◌%◌, Text, codes, trim, text_eq, to_ascii_lowercase,
  is_ascii_hexdigit, Bool, true, false, not, ◌||◌, List, [], ◌∷◌, ◌++◌, length, take, drop,
  is_empty, all_of, ltb, ◌==◌, if◌then◌else◌,
}
use immure.Error.{Error, Result, ok, err, unknown_algorithm, invalid_digest, digest_too_short}
use immure.Digest.Types.{Algorithm, sha256, sha384, sha512, blake3, hex_len, Digest, len}

unfoldable pub name : Algorithm → Text
name sha256 = codes "sha256"
name sha384 = codes "sha384"
name sha512 = codes "sha512"
name blake3 = codes "blake3"

-- `impl FromStr for Algorithm`
unfoldable pub algorithm_from_str : Text → Result Error Algorithm
unfolding trim text_eq
algorithm_from_str s =
    let t = to_ascii_lowercase (trim s) in
    if text_eq t (codes "sha256") || text_eq t (codes "sha-256")
    then ok sha256
    else if text_eq t (codes "sha384") || text_eq t (codes "sha-384")
    then ok sha384
    else if text_eq t (codes "sha512") || text_eq t (codes "sha-512")
    then ok sha512
    else if text_eq t (codes "blake3")
    then ok blake3
    else err (unknown_algorithm s)

-- `Digest::parse`. A text with a character beyond ASCII is refused for that character, so counting
-- characters in place of bytes changes nothing.
unfoldable pub parse : Text → Result Error Digest
parse s =
    let invalid = is_empty s || (not (length s % 2 == 0) || not (all_of is_ascii_hexdigit s)) in
    if invalid then err (invalid_digest s) else ok (record { text = to_ascii_lowercase s })

-- `&text[i * 2..i * 2 + 2]` for the `count` values of `i` from `i` on.
unfoldable pub pieces : Text → ℕ → ℕ → List Text
pieces text i zero = []
pieces text i (suc count) = take 2 (drop (i * 2) text) ∷ pieces text (suc i) count

-- `Digest::shards`
unfoldable pub shards : Digest → ℕ → Result Error (List Text)
shards d depth =
    let needed = depth * 2 in
    if ltb (len d) needed then err (digest_too_short d depth needed) else ok (pieces d.text 0 depth)

abbrev pub hex_digit : ℕ → ℕ
hex_digit n = if ltb n 10 then b'0' + n else b'a' + (n - 10)

-- `to_hex`: two lowercase digits for each byte.
unfoldable pub to_hex : List ℕ → Text
to_hex [] = []
to_hex (b ∷ bs) = hex_digit (b / 16) ∷ hex_digit (b % 16) ∷ to_hex bs

-- One hash function of another crate.
pub record Hash (S : Type 0) : Type 0 where
  pub new : S
  pub update : S → List ℕ → S
  pub finalize : S → List ℕ

-- The four, and the hexadecimal print that BLAKE3 brings along.
pub record Hashes (S : Type 0) : Type 0 where
  pub sha256_hash : Hash S
  pub sha384_hash : Hash S
  pub sha512_hash : Hash S
  pub blake3_hash : Hash S
  pub blake3_hex : List ℕ → Text

-- `enum State`, inside `Hasher`.
pub data Hasher (S : Type 0) : Type 0 where
  in_sha256 : S → Hasher S
  in_sha384 : S → Hasher S
  in_sha512 : S → Hasher S
  in_blake3 : S → Hasher S

module _ {S : Type 0} (h : Hashes S) where
  unfoldable pub hasher : Algorithm → Hasher S
  hasher sha256 = in_sha256 h.sha256_hash.new
  hasher sha384 = in_sha384 h.sha384_hash.new
  hasher sha512 = in_sha512 h.sha512_hash.new
  hasher blake3 = in_blake3 h.blake3_hash.new

  unfoldable pub update : Hasher S → List ℕ → Hasher S
  update (in_sha256 s) bytes = in_sha256 (h.sha256_hash.update s bytes)
  update (in_sha384 s) bytes = in_sha384 (h.sha384_hash.update s bytes)
  update (in_sha512 s) bytes = in_sha512 (h.sha512_hash.update s bytes)
  update (in_blake3 s) bytes = in_blake3 (h.blake3_hash.update s bytes)

  unfoldable pub finish : Hasher S → Digest
  unfolding to_hex
  finish (in_sha256 s) = record { text = to_hex (h.sha256_hash.finalize s) }
  finish (in_sha384 s) = record { text = to_hex (h.sha384_hash.finalize s) }
  finish (in_sha512 s) = record { text = to_hex (h.sha512_hash.finalize s) }
  finish (in_blake3 s) = record { text = h.blake3_hex (h.blake3_hash.finalize s) }

  -- `Algorithm::hash`
  unfoldable pub hash : Algorithm → List ℕ → Digest
  unfolding hasher update finish
  hash a bytes = finish (update (hasher a) bytes)
