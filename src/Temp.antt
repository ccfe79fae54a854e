-- ===== src/Temp.antt =====
-- src/temp.rs: the half-written entry, and what happens to it when writing goes wrong. An open file
-- is reached by its path, and the flush of a directory is a call whose failure changes nothing.
pub mod Names
pub mod Creation
pub mod Moves
pub mod Persist
use immure.Prelude.{
  ℕ, zero, suc, ◌+◌, Text, codes, strip_suffix, split_once, decimal, is_ascii_digit, Bool, true,
  false, not, ◌&&◌, ◌++◌, none, some, is_empty, all_of, [], if◌then◌else◌,
}
use immure.FilePath.{FilePath, join, parent}
use immure.Error.{ErrorKind, already_exists, IoError, Error, os, kind, Result, ok, err}
use immure.Exec.{◌>>=◌, ◌>>◌, pure, raise, gets, modify}
use immure.World.{
  Node, file, dir, special, World, Io, Op, context, metadata, create_new, rename, sync,
}
use immure.Protect.{succeeded, is_permission_denied, apply, is_read_only, unprotect, remove_file}

-- `DIR`, and `SUFFIX`
abbrev pub temp_dir_name : Text
temp_dir_name = codes "tmp"

abbrev pub temp_suffix : Text
temp_suffix = codes ".tmp"

unfoldable pub temp_name : ℕ → ℕ → Text
temp_name pid serial = decimal pid ++ codes "-" ++ decimal serial ++ temp_suffix

unfoldable pub is_temp_name : Text → Bool
is_temp_name name = elim (strip_suffix name temp_suffix) [
  | none ↦ false
  | some stem ↦ elim (split_once stem b'-') [
    | none ↦ false
    | some (pid, serial) ↦
        not (is_empty pid) && (not (is_empty serial) && all_of is_ascii_digit (pid ++ serial))
  ]
]

abbrev pub is_already_exists : ErrorKind → Bool
is_already_exists already_exists = true
is_already_exists _ = false

-- `COUNTER.fetch_add(1, ..)`
abbrev pub next_serial : Op ℕ
next_serial w = (ok w.serial, record w { serial = w.serial + 1 })

-- What the loop does with the answer: the next name, after a taken one.
abbrev pub created : FilePath → Op FilePath → Result IoError (Unit {0}) → Op FilePath
created path again (ok u) = pure path
created path again (err e) = if is_already_exists (kind e) then again else context (raise e)

-- `TempFile::create_in`, which tries one name after the other without end. The model gives up
-- after `tries` names with the error that says the last one was taken.
unfoldable pub create_in : ℕ → FilePath → Op FilePath
unfolding create_new temp_name
create_in zero place = context (raise (os already_exists []))
create_in (suc tries) place = do
  serial ← next_serial
  w ← gets (λ w. w)
  let path = join place (temp_name w.pid serial)
  answer ← λ w. (ok (create_new path w.clock w).0, (create_new path w.clock w).1)
  created path (create_in tries place) answer

abbrev pub names_file : Result IoError Node → Bool
names_file (ok (file b r t)) = true
names_file (ok dir) = false
names_file (ok special) = false
names_file (err e) = false

-- `Path::is_file`
unfoldable pub is_file : FilePath → Op Bool
unfolding metadata
is_file p w = let looked = metadata p w in (ok (names_file looked.0), looked.1)

unfoldable pub sync_dir : FilePath → World → World
unfolding metadata sync
sync_dir p w =
    let opened = metadata p w in if succeeded opened.0 then (sync opened.1).1 else opened.1

abbrev pub answer_of : {A : Type 0} → Io A → Op (Result IoError A)
answer_of m w = let r = m w in (ok r.0, r.1)

-- `renamed.is_err()` after the second attempt: the destination is protected again.
abbrev pub again : FilePath → Result IoError (Unit {0}) → Op Bool
again dest (ok u) = do modify (sync_dir (parent dest)); pure true
again dest (err e) = do modify (apply dest); context (raise e)

-- The file there is write-protected, so the flag comes off and the rename is asked a second time.
unfoldable pub refused : FilePath → FilePath → IoError → Op Bool
unfolding rename is_file apply is_read_only unprotect sync_dir
refused path dest e = do
  there ← is_file dest
  protected ←
      if there && is_permission_denied (kind e)
      then (λ w. (let seen = is_read_only dest w in (ok seen.0, seen.1)))
      else pure false
  if protected
      then (do modify (unprotect dest); answer ← answer_of (rename path dest); again dest answer)
      else context (raise e)

abbrev pub on_renamed : FilePath → FilePath → Bool → Result IoError (Unit {0}) → Op Bool
on_renamed path dest may_lose (ok u) = do modify (sync_dir (parent dest)); pure true
on_renamed path dest may_lose (err e) = do
  lost ←
      if may_lose
      then (if is_already_exists (kind e) then pure true else is_file dest)
      else pure false
  if lost then pure false else refused path dest e

-- `TempFile::rename_to` without the drop of what was not moved.
unfoldable pub attempt : FilePath → FilePath → Bool → Op Bool
unfolding sync apply is_file rename sync_dir refused
attempt path dest may_lose = do
  context sync
  modify (apply path)
  taken ← if may_lose then is_file dest else pure false
  if taken
      then pure false
      else (do answer ← answer_of (rename path dest); on_renamed path dest may_lose answer)

-- `impl Drop for TempFile`, for one that was not persisted.
unfoldable pub discard : FilePath → World → World
unfolding remove_file
discard path w = (remove_file path w).1

abbrev pub settled : Result Error Bool → Bool
settled (ok moved) = moved
settled (err e) = false

unfoldable pub rename_to : FilePath → FilePath → Bool → Op Bool
unfolding attempt discard
rename_to path dest may_lose w =
    let done = attempt path dest may_lose w in
    (done.0, if settled done.0 then done.1 else discard path done.1)

unfoldable pub persist : FilePath → FilePath → Op Bool
unfolding rename_to
persist path dest = rename_to path dest true

abbrev pub without_answer : Result Error Bool → Result Error (Unit {0})
without_answer (ok b) = ok tt
without_answer (err e) = err e

unfoldable pub replace : FilePath → FilePath → Op (Unit {0})
unfolding rename_to
replace path dest w = let done = rename_to path dest false w in (without_answer done.0, done.1)
