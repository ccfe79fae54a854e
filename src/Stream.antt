-- ===== src/Stream.antt =====
-- What the program uses of `std::io::{Read, Write}`. A source is the script of what its reads will
-- meet, and a sink the bytes that it took, with the script of its failures to come.
pub mod Fill
use immure.Prelude.{
  ℕ, zero, suc, ◌-◌, Bool, true, false, Option, none, some, List, [], ◌∷◌, ◌++◌, length, take, drop,
  leb, ◌==◌, if◌then◌else◌,
}
use immure.Error.{ErrorKind, interrupted, IoError, kind, Result, ok, err}
use immure.Exec.{Exec}

-- The file hands over a piece (nothing means the end), or a read fails.
pub data Event : Type 0 where
  piece : List ℕ → Event
  trouble : IoError → Event

abbrev pub Source : Type 0
Source = List Event

-- `read` into a buffer of `room` bytes. What does not fit stays for the next read.
unfoldable pub read : ℕ → Exec IoError Source (List ℕ)
read room [] = (ok [], [])
read room (piece bs ∷ src) =
    if leb (length bs) room then (ok bs, src) else (ok (take room bs), piece (drop room bs) ∷ src)
read room (trouble e ∷ src) = (err e, src)

abbrev pub is_interrupted : IoError → Bool
is_interrupted e = elim (kind e) [ interrupted ↦ true | _ ↦ false ]

-- One round of `fill`: what the read answered, and whether the loop goes on.
unfoldable pub fill_step :
    (Source → List ℕ → ℕ → Result IoError (List ℕ) × Source)
    → List ℕ
    → ℕ
    → Result IoError (List ℕ)
    → Source
    → Result IoError (List ℕ) × Source
fill_step again filled room (ok []) src = (ok filled, src)
fill_step again filled room (ok (b ∷ bs)) src =
    again src (filled ++ b ∷ bs) (room - length (b ∷ bs))
fill_step again filled room (err e) src =
    if is_interrupted e then again src filled room else (err e, src)

-- `while filled < buffer.len()`, `room` being what is left of the buffer.
unfoldable pub fill_loop : ℕ → Source → List ℕ → ℕ → Result IoError (List ℕ) × Source
unfolding fill_step
fill_loop zero src filled room = (ok filled, src)
fill_loop (suc fuel) src filled room =
    if room == 0
    then (ok filled, src)
    else (let r = read room src in fill_step (fill_loop fuel) filled room r.0 r.1)

-- `fill` of src/crypt/cipher.rs. Each round but the last takes an event off the script.
unfoldable pub fill : ℕ → Exec IoError Source (List ℕ)
unfolding fill_loop
fill room src = fill_loop (suc (suc (length src))) src [] room

pub record Sink : Type 0 where
  pub written : List ℕ
  -- what each `write_all` to come meets; past the end of the list they all succeed
  pub troubles : List (Option IoError)

pub write_next : List (Option IoError) → List ℕ → Exec IoError Sink (Unit {0})
write_next [] bytes k = (ok tt, record k { written = k.written ++ bytes })
write_next (none ∷ ts) bytes k = (ok tt, record { written = k.written ++ bytes; troubles = ts })
write_next (some e ∷ ts) bytes k = (err e, record k { troubles = ts })

-- `write_all` of the destination, which never answers `Interrupted`.
unfoldable pub write_all : List ℕ → Exec IoError Sink (Unit {0})
unfolding write_next
write_all bytes k = write_next k.troubles bytes k
