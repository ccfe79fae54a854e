-- ===== src/Digest/Hashing.antt =====
-- The laws of the hashers of src/digest.rs, given what SHA-2 and BLAKE3 document (`IsHashes`).
use immure.Prelude.{
  ℕ, ◌*◌, ◌<◌, ◌≡◌, refl, ap, sym, ◌∙◌, List, [], ◌∷◌, ◌++◌, append-nil, length, concat, All, arith,
}
use immure.Digest.Types.{Algorithm, sha256, sha384, sha512, blake3, hex_len, Digest, len}
use immure.Digest.{
  Hash, Hashes, Hasher, in_sha256, in_sha384, in_sha512, in_blake3, to_hex, hasher, update, finish,
  hash,
}
use immure.Digest.Parse.{IsDigest}
use immure.Digest.Hex.{IsByte, length-to_hex, to_hex-IsLowerHex}

pub record IsHash {S : Type 0} (h : Hash S) (size : ℕ) : Type 0 where
  pub update_append : (s : S) (xs ys : List ℕ) → h.update (h.update s xs) ys ≡ h.update s (xs ++ ys)
  pub finalize_length : (s : S) → length (h.finalize s) ≡ size
  pub finalize_bytes : (s : S) → All IsByte (h.finalize s)

pub record IsHashes {S : Type 0} (h : Hashes S) : Type 0 where
  pub sha256_laws : IsHash h.sha256_hash 32
  pub sha384_laws : IsHash h.sha384_hash 48
  pub sha512_laws : IsHash h.sha512_hash 64
  pub blake3_laws : IsHash h.blake3_hash 32
  -- the print that BLAKE3 brings along is lowercase hexadecimal
  pub blake3_print : (bytes : List ℕ) → h.blake3_hex bytes ≡ to_hex bytes

hex_IsDigest :
    (bytes : List ℕ) (size : ℕ)
    → length bytes ≡ size
    → All IsByte bytes
    → 0 < size
    → IsDigest (record { text = to_hex bytes }) × (length (to_hex bytes) ≡ size * 2)
hex_IsDigest bytes size e b n = (
  record {
    nonempty = omega (arith, length-to_hex bytes);
    even = omega (arith, length-to_hex bytes);
    hex = to_hex-IsLowerHex bytes b;
  },
  omega (arith, length-to_hex bytes),
)

module _ {S : Type 0} (h : Hashes S) (laws : IsHashes h) where
  -- The algorithm that a hasher computes.
  abbrev algorithm_of : Hasher S → Algorithm
  algorithm_of (in_sha256 s) = sha256
  algorithm_of (in_sha384 s) = sha384
  algorithm_of (in_sha512 s) = sha512
  algorithm_of (in_blake3 s) = blake3

  finish_lem :
      (x : Hasher S) → IsDigest (finish h x) × (len (finish h x) ≡ hex_len (algorithm_of x))
  unfolding finish hex_len
  finish_lem (in_sha256 s) =
      let l = laws.sha256_laws in
      hex_IsDigest _ 32 (l.finalize_length s) (l.finalize_bytes s) (omega arith)
  finish_lem (in_sha384 s) =
      let l = laws.sha384_laws in
      hex_IsDigest _ 48 (l.finalize_length s) (l.finalize_bytes s) (omega arith)
  finish_lem (in_sha512 s) =
      let l = laws.sha512_laws in
      hex_IsDigest _ 64 (l.finalize_length s) (l.finalize_bytes s) (omega arith)
  finish_lem (in_blake3 s) =
      let l = laws.blake3_laws in
      rw laws.blake3_print
        (hex_IsDigest _ 32 (l.finalize_length s) (l.finalize_bytes s) (omega arith))

  -- The content in pieces, fed one after the other.
  abbrev pub update_all : Hasher S → List (List ℕ) → Hasher S
  update_all x [] = x
  update_all x (p ∷ ps) = update_all (update h x p) ps

  pub update-update :
      (x : Hasher S) (xs ys : List ℕ) → update h (update h x xs) ys ≡ update h x (xs ++ ys)
  unfolding update
  update-update (in_sha256 s) xs ys = ap in_sha256 (laws.sha256_laws.update_append s xs ys)
  update-update (in_sha384 s) xs ys = ap in_sha384 (laws.sha384_laws.update_append s xs ys)
  update-update (in_sha512 s) xs ys = ap in_sha512 (laws.sha512_laws.update_append s xs ys)
  update-update (in_blake3 s) xs ys = ap in_blake3 (laws.blake3_laws.update_append s xs ys)

  update_all-concat :
      (x : Hasher S) (p : List ℕ) (ps : List (List ℕ))
      → update_all x (p ∷ ps) ≡ update h x (p ++ concat ps)
  update_all-concat x p [] = ap (update h x) (sym (append-nil p))
  update_all-concat x p (q ∷ ps) =
      update_all-concat (update h x p) q ps ∙ update-update x p (q ++ concat ps)

  hash_algorithm : (a : Algorithm) (bytes : List ℕ) → algorithm_of (update h (hasher h a) bytes) ≡ a
  unfolding hasher update
  hash_algorithm sha256 bytes = refl
  hash_algorithm sha384 bytes = refl
  hash_algorithm sha512 bytes = refl
  hash_algorithm blake3 bytes = refl

  -- For hash functions that give their documented number of bytes (IsHashes), the hash of any
  -- content is a well-formed digest of the algorithm's length.
  pub hash-IsDigest :
      (a : Algorithm) (bytes : List ℕ)
      → IsDigest (hash h a bytes) × (len (hash h a bytes) ≡ hex_len a)
  hash-IsDigest a bytes =
      let (w, e) = finish_lem (update h (hasher h a) bytes) in
      unfold hash in (w, e ∙ ap hex_len (hash_algorithm a bytes))

  -- The hash function that an algorithm names.
  unfoldable pub hash_of : Algorithm → Hash S
  hash_of sha256 = h.sha256_hash
  hash_of sha384 = h.sha384_hash
  hash_of sha512 = h.sha512_hash
  hash_of blake3 = h.blake3_hash

  -- The hexadecimal digits of what the algorithm's function gives for the content in one piece.
  abbrev pub print_of : Algorithm → List ℕ → Digest
  print_of a content =
      let f = hash_of a in record { text = to_hex (f.finalize (f.update f.new content)) }

  hash-print_of : (a : Algorithm) (content : List ℕ) → hash h a content ≡ print_of a content
  unfolding hash hasher update finish hash_of
  hash-print_of sha256 content = refl
  hash-print_of sha384 content = refl
  hash-print_of sha512 content = refl
  hash-print_of blake3 content = ap (λ t. record { text = t }) (laws.blake3_print _)

  -- For hash functions that may be fed in pieces (IsHashes): the hash of a content is the
  -- print in lowercase hexadecimal of what the function that the algorithm names gives for the
  -- whole content, and a hasher that is given one or more pieces of it one after the other
  -- finishes with the same.
  pub finish-update_all :
      (a : Algorithm) (p : List ℕ) (ps : List (List ℕ))
      → (hash h a (p ++ concat ps) ≡ print_of a (p ++ concat ps))
        × (finish h (update_all (hasher h a) (p ∷ ps)) ≡ print_of a (p ++ concat ps))
  unfolding hash
  finish-update_all a p ps = (
    hash-print_of a (p ++ concat ps),
    ap (finish h) (update_all-concat (hasher h a) p ps) ∙ hash-print_of a (p ++ concat ps),
  )
