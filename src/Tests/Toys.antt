-- ===== src/Tests/Toys.antt =====
-- Stand-ins for the other crates' code: a cipher whose tag is sixteen zeros, and hash functions
-- that remember a length.
use immure.Prelude.{
  ℕ, zero, suc, ◌+◌, ◌-◌, ◌%◌, ◌≡◌, refl, ap, Option, none, some, List, [], ◌∷◌, ◌++◌, length,
  length-append, take, length-take, take-append_length, All, ltb, if◌then◌else◌, arith,
}
use immure.Digest.{Hash, Hashes, to_hex}
use immure.Digest.Hex.{IsByte}
use immure.Digest.Hashing.{IsHash, IsHashes}
use immure.Cipher.{Aead}
use immure.Cipher.Opener.Chunks.{IsAead}

abbrev pub zeros : ℕ → List ℕ
zeros zero = []
zeros (suc n) = 0 ∷ zeros n

abbrev without_tag : List ℕ → Option (List ℕ)
without_tag sealed =
    if ltb (length sealed) 16 then none else some (take (length sealed - 16) sealed)

unfoldable pub plain_aead : Aead
plain_aead = record {
  encrypt = λ key nonce plain. some (plain ++ zeros 16);
  decrypt = λ key nonce sealed. without_tag sealed;
}

opened : (plain : List ℕ) → without_tag (plain ++ zeros 16) ≡ some plain
opened plain = ground (
  arith,
  length-append plain (zeros 16),
  take-append_length plain (zeros 16) (length (plain ++ zeros 16) - 16)
      (omega (arith, length-append plain (zeros 16))),
)

shrunk :
    (sealed plain : List ℕ) → without_tag sealed ≡ some plain → length sealed ≡ length plain + 16
shrunk sealed plain e = ground (arith, length-take (length sealed - 16) sealed)

pub plain_aead-IsAead : IsAead plain_aead
unfolding plain_aead
plain_aead-IsAead = record {
  seals =
      λ key nonce plain h. (plain ++ zeros 16, refl, length-append plain (zeros 16), opened plain);
  shrinks = λ key nonce sealed plain e. shrunk sealed plain e;
}

abbrev copies : ℕ → ℕ → List ℕ
copies zero x = []
copies (suc n) x = x ∷ copies n x

length_hash : ℕ → Hash ℕ
length_hash size = record {
  new = 0;
  update = λ s xs. s + length xs;
  finalize = λ s. copies size (s % 256);
}

unfoldable pub length_hashes : Hashes ℕ
unfolding length_hash to_hex
length_hashes = record {
  sha256_hash = length_hash 32;
  sha384_hash = length_hash 48;
  sha512_hash = length_hash 64;
  blake3_hash = length_hash 32;
  blake3_hex = to_hex;
}

length-copies : (n x : ℕ) → length (copies n x) ≡ n
length-copies zero x = refl
length-copies (suc n) x = ap suc (length-copies n x)

copies-IsByte : (n s : ℕ) → All IsByte (copies n (s % 256))
copies-IsByte zero s = tt
copies-IsByte (suc n) s = (omega arith, copies-IsByte n s)

length_hash-IsHash : (size : ℕ) → IsHash (length_hash size) size
unfolding length_hash
length_hash-IsHash size = record {
  update_append = λ s xs ys. omega (arith, length-append xs ys);
  finalize_length = λ s. length-copies size (s % 256);
  finalize_bytes = λ s. copies-IsByte size s;
}

pub length_hashes-IsHashes : IsHashes length_hashes
unfolding length_hashes
length_hashes-IsHashes = record {
  sha256_laws = length_hash-IsHash 32;
  sha384_laws = length_hash-IsHash 48;
  sha512_laws = length_hash-IsHash 64;
  blake3_laws = length_hash-IsHash 32;
  blake3_print = λ bytes. refl;
}
