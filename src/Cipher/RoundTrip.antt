-- ===== src/Cipher/RoundTrip.antt =====
-- `seal` and `open` of src/crypt/cipher.rs, together.
use immure.Prelude.{
  ℕ, suc, ◌+◌, ◌-◌, ◌*◌, ◌<◌, text_eq, ◌≡◌, refl, ap, ◌∙◌, false, not, ◌||◌, some, List, [], ◌∷◌,
  ◌++◌, append-nil, length, take, drop, take-append_length, drop-append_length, ltb, arith,
}
use immure.Error
use immure.Error.{IoError, Error, Result, ok, err}
use immure.Stream.{Source}
use immure.Stream.Fill.{IsClean, bytes_of}
use immure.Cipher.{
  Key, Nonce, Aead, chunk_size, nonce_len, header_size, magic, u32_mod, head_of, seal, unwrap_io,
}
use immure.Cipher.Frame.{followed, framed}
use immure.Cipher.Pieces.{unwrapped, seal-framed}
use immure.Cipher.Opener.{opener, read_to_end, slice, open_blob}
use immure.Cipher.Opener.Chunks.{
  IsAead, opened_from, opened-chunks_from, chunks_from_total, opened_head, opened_blob,
}
use immure.Cipher.Opener.Reads.{read_to_end_lem}

abbrev framing : Nonce → Result IoError (List ℕ) → Result IoError (List ℕ)
framing nonce r = Error.◌>>=◌ r (λ chunks. ok (head_of nonce ++ chunks))

module _ (a : Aead) (laws : IsAead a) where
  -- Whatever pieces the source hands over, and however often a read of it is interrupted, reading
  -- an opener to its end gives what the blob opens to as a whole, or its error.
  pub read_to_end-opened_blob :
      (room fuel : ℕ) (key : Key) (src : Source)
      → IsClean src
      → length (bytes_of src) < fuel
      → read_to_end a (suc room) fuel (opener key src) [] ≡ opened_blob a key (bytes_of src)
  read_to_end-opened_blob room fuel key src c h =
      read_to_end_lem a laws room fuel (opener key src) []
        (record { unspoiled = refl; clean = c; within = omega arith; from_start = λ e. refl })
        (omega arith)
      ∙ nothing_first (opened_blob a key (bytes_of src))
    where
      nothing_first : (r : Result IoError (List ℕ)) → followed (ok []) (followed (ok []) r) ≡ r
      nothing_first (ok x) = refl
      nothing_first (err e) = refl

  slice_lem : (bytes : List ℕ) → IsClean (slice bytes) × (bytes_of (slice bytes) ≡ bytes)
  slice_lem [] = (tt, refl)
  slice_lem (b ∷ bs) = ((omega arith, tt), append-nil (b ∷ bs))

  -- For a cipher whose tag adds sixteen bytes (IsAead), a key and any bytes: `open`, reading
  -- with a buffer of any positive size, gives what a recursion over the whole blob gives, the
  -- content or the error.
  pub open_blob-opened_blob :
      (room : ℕ) (key : Key) (sealed : List ℕ)
      → open_blob a (suc room) key sealed ≡ unwrapped (opened_blob a key sealed)
  unfolding open_blob
  open_blob-opened_blob room key sealed =
      let (clean, same) = slice_lem sealed in
      unwrap _ (opened_blob a key sealed) (
        read_to_end-opened_blob room (suc (length sealed)) key (slice sealed) clean
          (omega (arith, ap length same))
        ∙ ap (opened_blob a key) same)
    where
      unwrap :
          (r q : Result IoError (List ℕ))
          → r ≡ q
          → elim r as (λ x. Result Error (List ℕ)) [
            | ok plain ↦ ok plain
            | err e ↦ err (unwrap_io e)
          ]
            ≡ unwrapped q
      unwrap (ok x) q e = ap unwrapped e
      unwrap (err x) q e = ap unwrapped e

  good_head :
      (nonce : Nonce)
      → length nonce.bytes ≡ nonce_len
      → (ltb (length (head_of nonce)) (header_size + nonce_len)
          || not (text_eq (take 4 (head_of nonce)) magic))
        ≡ false
  unfolding text_eq
  good_head nonce h = ground arith

  opened_head-head_of :
      (key : Key) (nonce : Nonce) (body : List ℕ)
      → length nonce.bytes ≡ nonce_len
      → opened_head a key (head_of nonce) body ≡ opened_from a key nonce 0 body
  opened_head-head_of key nonce body h = unfold opened_head in rw (good_head nonce h)

  -- A frame opens to what was put in it.
  opened_blob-framed :
      (key : Key) (nonce : Nonce) (chunks : List ℕ)
      → length nonce.bytes ≡ nonce_len
      → opened_blob a key (head_of nonce ++ chunks) ≡ opened_from a key nonce 0 chunks
  unfolding opened_blob
  opened_blob-framed key nonce chunks h =
      ap (λ x. opened_head a key x (drop (header_size + nonce_len) (head_of nonce ++ chunks)))
        (take-append_length (head_of nonce) chunks (header_size + nonce_len) (omega arith))
      ∙ ap (opened_head a key (head_of nonce))
          (drop-append_length (head_of nonce) chunks (header_size + nonce_len) (omega arith))
      ∙ opened_head-head_of key nonce chunks h

  -- For a cipher that seals chunks and opens what it sealed (IsAead), a key, a nonce of 19
  -- bytes and a content of fewer than (2^32 - 1) * 65536 bytes, `seal` succeeds, and `open`,
  -- reading with a buffer of any positive size, gives back the content.
  pub open-seal :
      (key : Key) (nonce : Nonce) (plain : List ℕ) (room : ℕ)
      → length nonce.bytes ≡ nonce_len
      → length plain < (u32_mod - 1) * chunk_size
      → (sealed : List ℕ) × (seal a key (some nonce.bytes) plain ≡ ok sealed)
        × (open_blob a (suc room) key sealed ≡ ok plain)
  open-seal key nonce plain room h k =
      let (chunks, e) = chunks_from_total a key nonce laws plain k in
      (
        head_of nonce ++ chunks,
        seal-framed a key nonce plain ∙ (unfold framed in ap (λ r. unwrapped (framing nonce r)) e),
        open_blob-opened_blob room key (head_of nonce ++ chunks)
            ∙ ap unwrapped (
                opened_blob-framed key nonce chunks h
                ∙ opened-chunks_from a key nonce laws 0 plain chunks e),
      )
