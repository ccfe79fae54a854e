-- ===== src/Tests/Ciphers.antt =====
-- src/crypt/cipher.rs on small content, with the stand-in for the cipher.
use immure.Prelude.{ℕ, suc, ◌≡◌, refl, codes, concat, true, some, List, [], ◌∷◌, arith}
use immure.Error.{os, interrupted, ok}
use immure.Stream.{piece, trouble, Source, fill}
use immure.Stream.Fill.{bytes_of, IsFilled, fill-IsFilled}
use immure.Cipher.{Key, Nonce, chunk_size_lem, seal}
use immure.Cipher.Frame.{framed}
use immure.Cipher.Pieces.{unwrapped, seal_pieces, seal_pieces-framed}
use immure.Cipher.Opener.{open_blob}
use immure.Cipher.Opener.Chunks.{opened_blob}
use immure.Cipher.RoundTrip.{open_blob-opened_blob, open-seal}
use immure.Cipher.Nonces.{chunk_nonce_injective}
use immure.Tests.Toys.{zeros, plain_aead, plain_aead-IsAead}

abbrev some_key : Key
some_key = record { bytes = zeros 32 }

abbrev some_nonce : Nonce
some_nonce = record { bytes = zeros 19 }

abbrev content : List ℕ
content = codes "content"

open-seal_example :
    (sealed : List ℕ) × (seal plain_aead some_key (some some_nonce.bytes) content ≡ ok sealed)
    × (open_blob plain_aead (suc 63) some_key sealed ≡ ok content)
open-seal_example =
    open-seal plain_aead plain_aead-IsAead some_key some_nonce content 63 refl
      (omega (arith, chunk_size_lem))

open_blob-opened_blob_example :
    open_blob plain_aead (suc 63) some_key (codes "immr")
    ≡ unwrapped (opened_blob plain_aead some_key (codes "immr"))
open_blob-opened_blob_example =
    open_blob-opened_blob plain_aead plain_aead-IsAead 63 some_key (codes "immr")

seal_pieces-framed_example :
    seal_pieces plain_aead some_key (some some_nonce.bytes) (content ∷ [] ∷ content ∷ [])
    ≡ framed plain_aead some_key some_nonce (concat (content ∷ [] ∷ content ∷ []))
seal_pieces-framed_example =
    seal_pieces-framed plain_aead some_key some_nonce (content ∷ [] ∷ content ∷ [])

abbrev three : ℕ
three = 3

chunk_nonce_injective_example : (three ≡ 3) × (true ≡ true)
chunk_nonce_injective_example =
    chunk_nonce_injective some_nonce three 3 true true (omega arith) (omega arith) refl

abbrev in_parts : Source
in_parts = piece (codes "ab") ∷ trouble (os interrupted []) ∷ piece (codes "cde") ∷ []

fill-IsFilled_example : IsFilled 4 [] (bytes_of in_parts) (fill 4 in_parts)
fill-IsFilled_example = fill-IsFilled 4 in_parts (omega arith, (refl, (omega arith, tt)))
