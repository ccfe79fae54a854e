-- ===== src/Cipher/Opener.antt =====
-- `Opener` and `open` of src/crypt/cipher.rs: a sealed blob read back a chunk at a time. What an
-- `io::Error` of the crate's own prints as is not modelled.
pub mod Chunks
pub mod Head
pub mod Step
pub mod Refill
pub mod Reads
use immure.Prelude.{
  ℕ, zero, suc, ◌+◌, ◌-◌, min, Text, text_eq, Bool, true, false, not, ◌&&◌, ◌||◌, Option, none,
  some, List, [], ◌∷◌, ◌++◌, length, take, drop, ltb, ◌==◌, if◌then◌else◌,
}
use immure.Error.{
  ErrorKind, IoError, os, wrapped, Error, unsealable, damaged, frame_version, too_many_chunks, kind,
  Result, ok, err,
}
use immure.Exec.{Exec, ◌>>=◌, ◌>>◌, pure}
use immure.Stream.{Source, piece, fill}
use immure.Cipher.{
  Key, Nonce, Aead, chunk_nonce, sealed_chunk_size, tag_size, nonce_len, header_size, magic,
  version, u32_mod, unwrap_io,
}

-- `enum Spoiled`: what ended a reader.
pub data Spoiled : Type 0 where
  spoiled_unsealable spoiled_damaged spoiled_too_many : Spoiled
  spoiled_version : ℕ → Spoiled
  spoiled_source : ErrorKind → Text → Spoiled

-- `Spoiled::failure`: a first chunk that does not open may be the wrong key.
unfoldable pub failure : ℕ → Spoiled
failure number = if number == 0 then spoiled_unsealable else spoiled_damaged

-- `Spoiled::error`
unfoldable pub spoiled_error : Spoiled → IoError
spoiled_error spoiled_unsealable = wrapped unsealable
spoiled_error spoiled_damaged = wrapped damaged
spoiled_error (spoiled_version v) = wrapped (frame_version v)
spoiled_error spoiled_too_many = wrapped too_many_chunks
spoiled_error (spoiled_source k m) = os k m

abbrev pub message : IoError → Text
message (os k m) = m
message (wrapped e) = []

pub record Opener : Type 0 where
  pub key : Key
  pub nonce : Option Nonce
  pub number : ℕ
  pub plain : List ℕ
  pub taken : ℕ
  pub src : Source
  pub done : Bool
  pub spoiled : Option Spoiled

-- `Opener::new`
abbrev pub opener : Key → Source → Opener
opener key src = record {
  key = key;
  nonce = none;
  number = 0;
  plain = [];
  taken = 0;
  src = src;
  done = false;
  spoiled = none;
}

-- `Err(self.spoil(reason))`
unfoldable pub spoil : {A : Type 0} → Spoiled → Exec IoError Opener A
unfolding spoiled_error
spoil reason s =
    (err (spoiled_error reason), record s { plain = []; taken = 0; spoiled = some reason })

-- `Err(self.spoil_source(err))`
unfoldable pub spoil_source : {A : Type 0} → IoError → Exec IoError Opener A
spoil_source e s = (
  err e,
  record s { plain = []; taken = 0; spoiled = some (spoiled_source (kind e) (message e)) },
)

abbrev pub first_or : ℕ → List ℕ → ℕ
first_or d [] = d
first_or d (b ∷ bs) = b

-- What the header says, once it was read.
unfoldable pub check_head : List ℕ → Exec IoError Opener Nonce
unfolding spoil failure text_eq
check_head head s =
    if ltb (length head) (header_size + nonce_len) || not (text_eq (take (length magic) head) magic)
    then spoil (failure 0) s
    else (let v = first_or 0 (drop (length magic) head) in
        if not (v == version)
        then spoil (spoiled_version v) s
        else (let nonce : Nonce = record { bytes = drop header_size head } in
            (ok nonce, record s { nonce = some nonce })))

unfoldable pub on_head : Result IoError (List ℕ) × Source → Exec IoError Opener Nonce
unfolding check_head spoil_source
on_head (ok head, src) s = check_head head (record s { src = src })
on_head (err e, src) s = spoil_source e (record s { src = src })

-- `if let Some(nonce) = self.nonce`
unfoldable pub head_from : Option Nonce → Exec IoError Opener Nonce
unfolding on_head
head_from (some nonce) s = (ok nonce, s)
head_from none s = on_head (fill (header_size + nonce_len) s.src) s

unfoldable pub read_head : Exec IoError Opener Nonce
unfolding head_from
read_head s = head_from s.nonce s

unfoldable pub accept : Option (List ℕ) → ℕ → Bool → Exec IoError Opener (Unit {0})
unfolding spoil failure
accept none number last s = spoil (failure number) s
accept (some plain) number last s =
    if ltb (number + 1) u32_mod
    then (ok tt, record s { plain = plain; number = number + 1; taken = 0; done = last })
    else spoil spoiled_too_many s

unfoldable pub while_empty : Bool → Bool → Exec IoError Opener Bool → Exec IoError Opener Bool
while_empty false done more s = (ok true, s)
while_empty true true more s = (ok false, s)
while_empty true false more s = more s

-- A slice of bytes as a source.
abbrev pub slice : List ℕ → Source
slice [] = []
slice (b ∷ bs) = piece (b ∷ bs) ∷ []

module _ (a : Aead) where
  unfoldable pub on_chunk :
      Nonce → ℕ → Result IoError (List ℕ) × Source → Exec IoError Opener (Unit {0})
  unfolding accept spoil_source
  on_chunk nonce number (err e, src) s = spoil_source e (record s { src = src })
  on_chunk nonce number (ok sealed, src) s =
      let last = ltb (length sealed) sealed_chunk_size in
      let s' : Opener = record s { src = src } in
      if last && ltb (length sealed) tag_size
      then spoil (failure number) s'
      else accept (a.decrypt s.key (chunk_nonce nonce number last) sealed) number last s'

  -- `Opener::next_chunk`
  unfoldable pub next_chunk : Exec IoError Opener (Unit {0})
  unfolding read_head on_chunk
  next_chunk = do nonce ← read_head; λ s. on_chunk nonce s.number (fill sealed_chunk_size s.src) s

  -- `while self.taken == self.plain.len()`: whether there is something to hand out. The loop ends
  -- with nothing when the last chunk was the one handed out.
  unfoldable pub refill : ℕ → Exec IoError Opener Bool
  unfolding while_empty
  refill zero s = (ok false, s)
  refill (suc fuel) s =
      while_empty (s.taken == length s.plain) s.done (do next_chunk; refill fuel) s

  unfoldable pub hand_out : ℕ → Bool → Exec IoError Opener (List ℕ)
  hand_out room false s = (ok [], s)
  hand_out room true s =
      let count = min room (length s.plain - s.taken) in
      (ok (take count (drop s.taken s.plain)), record s { taken = s.taken + count })

  -- A chunk that is not the last is never empty, so two rounds are enough.
  unfoldable pub refills : ℕ
  refills = 2

  -- A reader that has ended gives the same answer however often it is asked.
  unfoldable pub read_unless : Option Spoiled → ℕ → Exec IoError Opener (List ℕ)
  unfolding refill hand_out refills spoiled_error
  read_unless (some reason) room s = (err (spoiled_error reason), s)
  read_unless none room s = (do more ← refill refills; hand_out room more) s

  -- `Read::read` of `Opener`, into a buffer of `room` bytes.
  unfoldable pub read : ℕ → Exec IoError Opener (List ℕ)
  unfolding read_unless
  read room s = if room == 0 then (ok [], s) else read_unless s.spoiled room s

  unfoldable pub keep :
      (Opener → List ℕ → Result IoError (List ℕ))
      → List ℕ
      → Result IoError (List ℕ) × Opener
      → Result IoError (List ℕ)
  keep again found (ok [], s) = ok found
  keep again found (ok (b ∷ bs), s) = again s (found ++ b ∷ bs)
  keep again found (err e, s) = err e

  -- `read_to_end` with a buffer of `room` bytes.
  unfoldable pub read_to_end : ℕ → ℕ → Opener → List ℕ → Result IoError (List ℕ)
  unfolding keep
  read_to_end room zero s found = ok found
  read_to_end room (suc fuel) s found = keep (read_to_end room fuel) found (read room s)

  -- `open`, each read but the last handing out a byte at least.
  unfoldable pub open_blob : ℕ → Key → List ℕ → Result Error (List ℕ)
  unfolding read_to_end unwrap_io
  open_blob room key sealed =
      elim (read_to_end room (suc (length sealed)) (opener key (slice sealed)) []) [
        | ok plain ↦ ok plain
        | err e ↦ err (unwrap_io e)
      ]
