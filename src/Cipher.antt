-- ===== src/Cipher.antt =====
-- src/crypt/cipher.rs: keys, nonces, the sealer and the opener. XChaCha20-Poly1305 is another
-- crate's code and enters as the parameter `Aead`; what `getrandom` answers is an argument.
-- The scratch buffer `chunk` of `Sealer`, and the wiping of keys, are not modelled.
pub mod Frame
pub mod Seal
pub mod Pieces
pub mod Opener
pub mod RoundTrip
pub mod Nonces
use immure.Prelude.{
  ℕ, zero, suc, ◌+◌, ◌-◌, ◌*◌, ◌≡◌, refl, ◌/◌, ◌%◌, ◌^◌, min, codes, Text, text_eq, Bool, true,
  false, not, ◌&&◌, ◌||◌, Option, none, some, List, [], ◌∷◌, ◌++◌, length, take, drop, is_empty,
  ltb, ◌==◌, if◌then◌else◌,
}
use immure.Error.{
  ErrorKind, other, write_zero, IoError, os, wrapped, Error, io, random, key_length, unsealable,
  damaged, frame_version, too_many_chunks, kind, Result, ok, err,
}
use immure.Exec.{Exec, ◌>>=◌, ◌>>◌, pure, raise, modify}
use immure.Stream.{Source, Sink, piece, fill, write_all}

-- `CHUNK`. It is shut, so that proofs do not count to it; its value is used through
-- `chunk_size_lem`.
unfoldable pub chunk_size : ℕ
chunk_size = 64 * 1024

pub chunk_size_lem : chunk_size ≡ 65536
unfolding chunk_size
chunk_size_lem = refl

abbrev pub tag_size : ℕ
tag_size = 16

-- `SEALED_CHUNK`
unfoldable pub sealed_chunk_size : ℕ
unfolding chunk_size
sealed_chunk_size = chunk_size + tag_size

pub sealed_chunk_size_lem : sealed_chunk_size ≡ 65552
unfolding sealed_chunk_size
sealed_chunk_size_lem = refl

-- `PREFIX`, which is `Nonce::LEN`
abbrev pub nonce_len : ℕ
nonce_len = 19

abbrev pub magic : List ℕ
magic = codes "immr"

abbrev pub version : ℕ
version = 1

-- `HEADER`
abbrev pub header_size : ℕ
header_size = 5

abbrev pub key_len : ℕ
key_len = 32

-- One more than the largest `u32`.
abbrev pub u32_mod : ℕ
u32_mod = 4294967296

pub record Key : Type 0 where
  pub bytes : List ℕ

-- `Key::random` and `Nonce::random`, `drawn` being what `getrandom::fill` wrote, if it could.
unfoldable pub key_random : Option (List ℕ) → Result Error Key
key_random none = err random
key_random (some bytes) = ok (record { bytes = bytes })

unfoldable pub key_from_slice : List ℕ → Result Error Key
key_from_slice bytes =
    if length bytes == key_len
    then ok (record { bytes = bytes })
    else err (key_length key_len (length bytes))

pub record Nonce : Type 0 where
  pub bytes : List ℕ

unfoldable pub nonce_random : Option (List ℕ) → Result Error Nonce
nonce_random none = err random
nonce_random (some bytes) = ok (record { bytes = bytes })

-- `u32::to_be_bytes`
abbrev pub be_bytes : ℕ → List ℕ
be_bytes n = n / 2 ^ 24 % 256 ∷ n / 2 ^ 16 % 256 ∷ n / 2 ^ 8 % 256 ∷ n % 256 ∷ []

abbrev pub bit : Bool → ℕ
bit true = 1
bit false = 0

-- `Nonce::chunk`
unfoldable pub chunk_nonce : Nonce → ℕ → Bool → List ℕ
chunk_nonce nonce number last = nonce.bytes ++ (be_bytes number ++ (bit last ∷ []))

-- The cipher with no associated data: key, nonce and text.
pub record Aead : Type 0 where
  pub encrypt : Key → List ℕ → List ℕ → Option (List ℕ)
  pub decrypt : Key → List ℕ → List ℕ → Option (List ℕ)

pub record Sealer : Type 0 where
  pub key : Key
  pub nonce : Nonce
  pub number : ℕ
  pub pending : List ℕ
  pub dst : Sink

abbrev pub head_of : Nonce → List ℕ
head_of nonce = magic ++ (version ∷ nonce.bytes)

abbrev pub sealing_error : IoError
sealing_error = os other (codes "sealing a chunk")

-- `?` on a call on the destination.
abbrev pub on_dst : Exec IoError Sink (Unit {0}) → Exec IoError Sealer (Unit {0})
on_dst m s = let r = m s.dst in (r.0, record s { dst = r.1 })

unfoldable pub start_sealer : Key → Nonce → Result IoError (Unit {0}) × Sink → Result IoError Sealer
start_sealer key nonce (ok u, dst) =
    ok (record { key = key; nonce = nonce; number = 0; pending = []; dst = dst })
start_sealer key nonce (err e, dst) = err e

-- `Sealer::new`: a nonce is drawn, and the header written ahead of the first chunk.
unfoldable pub sealer : Key → Option (List ℕ) → Sink → Result IoError Sealer
unfolding start_sealer
sealer key drawn dst = elim (nonce_random drawn) [
  | err e ↦ err (wrapped e)
  | ok nonce ↦ start_sealer key nonce (write_all (head_of nonce) dst)
]

-- An empty `Vec`, which takes whatever is written to it.
abbrev pub vec : Sink
vec = record { written = []; troubles = [] }

-- `unwrap_io`: one of the crate's own errors comes out of the `io::Error` that carried it.
unfoldable pub unwrap_io : IoError → Error
unwrap_io (wrapped e) = e
unwrap_io (os k m) = io (os k m)

unfoldable pub sealed_result : Result IoError (Unit {0}) × Sealer → Result Error (List ℕ)
unfolding unwrap_io
sealed_result (ok u, s) = ok s.dst.written
sealed_result (err e, s) = err (unwrap_io e)

module _ (a : Aead) where
  unfoldable pub emit : Option (List ℕ) → Exec IoError Sealer (Unit {0})
  emit none s = (err sealing_error, s)
  emit (some sealed) s =
      if ltb (s.number + 1) u32_mod
      then on_dst (write_all sealed) (record s { number = s.number + 1 })
      else (err (wrapped too_many_chunks), s)

  -- `Sealer::seal_chunk`
  unfoldable pub seal_chunk : ℕ → Bool → Exec IoError Sealer (Unit {0})
  unfolding emit
  seal_chunk count last s =
      emit (a.encrypt s.key (chunk_nonce s.nonce s.number last) (take count s.pending))
        (record s { pending = drop count s.pending })

  unfoldable pub take_in : List ℕ → Exec IoError Sealer ℕ
  take_in bytes s =
      let count = min (chunk_size - length s.pending) (length bytes) in
      (ok count, record s { pending = s.pending ++ take count bytes })

  -- A full buffer goes out once something follows it.
  unfoldable pub make_room : Exec IoError Sealer (Unit {0})
  unfolding seal_chunk
  make_room s = if length s.pending == chunk_size then seal_chunk chunk_size false s else (ok tt, s)

  -- `Write::write` of `Sealer`
  unfoldable pub write : List ℕ → Exec IoError Sealer ℕ
  unfolding make_room take_in
  write bytes = if is_empty bytes then pure 0 else do make_room; take_in bytes

  unfoldable pub last_chunk : Exec IoError Sealer (Unit {0})
  unfolding seal_chunk
  last_chunk s = seal_chunk (length s.pending) true s

  -- `Sealer::finish`, which hands the destination back.
  unfoldable pub finish : Sealer → Result IoError (Unit {0}) × Sealer
  unfolding make_room last_chunk
  finish = do make_room; last_chunk

  -- `Write::write_all` of the standard library: until all is taken.
  unfoldable pub write_loop : ℕ → List ℕ → Exec IoError Sealer (Unit {0})
  write_loop zero bytes = pure tt
  write_loop (suc fuel) [] = pure tt
  write_loop (suc fuel) (b ∷ bs) = do
    count ← write (b ∷ bs)
    if count == 0 then raise (os write_zero []) else write_loop fuel (drop count (b ∷ bs))

  -- Each round takes a byte at least.
  unfoldable pub write_whole : List ℕ → Exec IoError Sealer (Unit {0})
  unfolding write_loop
  write_whole bytes = write_loop (length bytes) bytes

  -- `seal`
  unfoldable pub seal : Key → Option (List ℕ) → List ℕ → Result Error (List ℕ)
  unfolding sealed_result write_whole finish
  seal key drawn plain = elim (sealer key drawn vec) [
    | err e ↦ err (unwrap_io e)
    | ok s ↦ sealed_result ((do write_whole plain; finish) s)
  ]
