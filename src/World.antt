-- ===== src/World.antt =====
-- What the program uses of `std::fs` and of its own shared cells: a file system as an association
-- list, a script of what each call on it meets (a failure, or another writer's changes first), and
-- the atomics of src/store.rs, src/protect.rs and src/temp.rs. Symbolic links, modes beyond the
-- read-only flag and open handles are not modelled: a file is reached by its path.
pub mod Calls
pub mod Listing
pub mod Listed
pub mod Dirs
use immure.Prelude.{ℕ, Bool, true, false, Option, none, some, List, [], ◌∷◌, ◌++◌, if◌then◌else◌}
use immure.FilePath.{OsName, FilePath, path_eq, parent, file_name}
use immure.Error.{
  ErrorKind, not_found, already_exists, permission_denied, not_a_directory, other, IoError, os,
  Error, Result, ok, err, ctx,
}
use immure.Exec.{Exec}

-- A file has its bytes, its read-only flag and the time of its last change.
pub data Node : Type 0 where
  file : List ℕ → Bool → ℕ → Node
  dir : Node
  special : Node

abbrev pub Fs : Type 0
Fs = List (FilePath × Node)

unfoldable pub at : FilePath → Fs → Option Node
at p [] = none
at p ((q, n) ∷ fs) = if path_eq q p then some n else at p fs

unfoldable pub erase : FilePath → Fs → Fs
erase p [] = []
erase p ((q, n) ∷ fs) = let rest = erase p fs in if path_eq q p then rest else (q, n) ∷ rest

unfoldable pub put : FilePath → Node → Fs → Fs
unfolding erase
put p n fs = (p, n) ∷ erase p fs

pub data Happening : Type 0 where
  calm : Happening
  fails : IoError → Happening
  acts : (Fs → Fs) → Happening

pub record World : Type 0 where
  pub fs : Fs
  pub script : List Happening
  pub clock : ℕ
  -- the process number, and `COUNTER` of src/temp.rs
  pub pid : ℕ
  pub serial : ℕ
  -- what `getrandom` will answer
  pub draws : List (Option (List ℕ))
  -- `Store::first_form`, `Store::key_proven` and `Protection::state`
  pub first_form : ℕ
  pub key_proven : Bool
  pub protection : ℕ

abbrev pub Io : Type 0 → Type 0
Io A = Exec IoError World A

abbrev pub Op : Type 0 → Type 0
Op A = Exec Error World A

-- `.ctx(..)?`
abbrev pub context : {A : Type 0} → Io A → Op A
context m w = let r = m w in (ctx r.0, r.1)

abbrev pub run : {A : Type 0} → (Fs → Result IoError A × Fs) → Fs → World → Result IoError A × World
run call fs w = let r = call fs in (r.0, record w { fs = r.1 })

unfoldable pub meet : {A : Type 0} → List Happening → (Fs → Result IoError A × Fs) → Io A
meet [] call w = run call w.fs w
meet (calm ∷ more) call w = run call w.fs (record w { script = more })
meet (fails e ∷ more) call w = (err e, record w { script = more })
meet (acts f ∷ more) call w = run call (f w.fs) (record w { script = more })

-- One call on the file system.
unfoldable pub sys : {A : Type 0} → (Fs → Result IoError A × Fs) → Io A
unfolding meet
sys call w = meet w.script call w

abbrev pub fail : {A : Type 0} → ErrorKind → Fs → Result IoError A × Fs
fail k fs = (err (os k []), fs)

abbrev pub is_dir : Option Node → Bool
is_dir (some dir) = true
is_dir _ = false

abbrev pub is_file : Node → Bool
is_file (file b r t) = true
is_file dir = false
is_file special = false

-- The root of the file system has no entry of its own and is always there.
abbrev pub has_parent : FilePath → Fs → Bool
has_parent [] fs = true
has_parent (c ∷ []) fs = true
has_parent (c ∷ d ∷ p) fs = is_dir (at (parent (c ∷ d ∷ p)) fs)

abbrev pub found : Option Node → Fs → Result IoError Node × Fs
found none fs = fail not_found fs
found (some n) fs = (ok n, fs)

unfoldable pub metadata : FilePath → Io Node
unfolding sys at
metadata p = sys (λ fs. found (at p fs) fs)

abbrev pub content : Option Node → Fs → Result IoError (List ℕ) × Fs
content none fs = fail not_found fs
content (some (file b r t)) fs = (ok b, fs)
content (some dir) fs = fail other fs
content (some special) fs = fail other fs

-- `File::open` and reading it to its end; a failure of a read is one of the call.
unfoldable pub read_file : FilePath → Io (List ℕ)
unfolding sys at
read_file p = sys (λ fs. content (at p fs) fs)

abbrev pub create_at : FilePath → Node → Option Node → Fs → Result IoError (Unit {0}) × Fs
create_at p n (some old) fs = fail already_exists fs
create_at p n none fs = if has_parent p fs then (ok tt, put p n fs) else fail not_found fs

-- `OpenOptions::create_new`
unfoldable pub create_new : FilePath → ℕ → Io (Unit {0})
unfolding sys at put
create_new p now = sys (λ fs. create_at p (file [] false now) (at p fs) fs)

unfoldable pub create_dir : FilePath → Io (Unit {0})
unfolding sys at put
create_dir p = sys (λ fs. create_at p dir (at p fs) fs)

abbrev pub overwrite : FilePath → List ℕ → Option Node → Fs → Result IoError (Unit {0}) × Fs
overwrite p b (some (file old r t)) fs = (ok tt, put p (file b r t) fs)
overwrite p b _ fs = fail not_found fs

-- The bytes that a writer left in the open file.
unfoldable pub write_file : FilePath → List ℕ → Io (Unit {0})
unfolding sys at put
write_file p b = sys (λ fs. overwrite p b (at p fs) fs)

abbrev pub set_flag : FilePath → Bool → Option Node → Fs → Result IoError (Unit {0}) × Fs
set_flag p flag (some (file b r t)) fs = (ok tt, put p (file b flag t) fs)
set_flag p flag (some n) fs = (ok tt, fs)
set_flag p flag none fs = fail not_found fs

unfoldable pub set_read_only : FilePath → Bool → Io (Unit {0})
unfolding sys at put
set_read_only p flag = sys (λ fs. set_flag p flag (at p fs) fs)

abbrev pub move_to :
    FilePath → FilePath → Option Node → Option Node → Fs → Result IoError (Unit {0}) × Fs
move_to p q none there fs = fail not_found fs
move_to p q (some n) (some dir) fs = fail other fs
move_to p q (some n) there fs =
    if has_parent q fs then (ok tt, put q n (erase p fs)) else fail not_found fs

-- `fs::rename`, which replaces a file that has the name.
unfoldable pub rename : FilePath → FilePath → Io (Unit {0})
unfolding sys at put
rename p q = sys (λ fs. move_to p q (at p fs) (at q fs) fs)

abbrev pub unlink : FilePath → Option Node → Fs → Result IoError (Unit {0}) × Fs
unlink p none fs = fail not_found fs
unlink p (some dir) fs = fail other fs
unlink p (some n) fs = (ok tt, erase p fs)

unfoldable pub remove : FilePath → Io (Unit {0})
unfolding sys at erase
remove p = sys (λ fs. unlink p (at p fs) fs)

-- `File::sync_all`
unfoldable pub sync : Io (Unit {0})
unfolding sys
sync = sys (λ fs. (ok tt, fs))

-- The error of `mkdir` where something that is no directory has the name itself, or a name on the
-- way to it.
abbrev pub in_the_way : FilePath → ErrorKind
in_the_way [] = already_exists
in_the_way (c ∷ more) = not_a_directory

abbrev pub on_the_way :
    Result IoError (Unit {0}) × Fs
    → Result IoError (Unit {0}) × Fs
    → FilePath
    → Fs
    → Option Node
    → Result IoError (Unit {0}) × Fs
on_the_way make keep more fs none = make
on_the_way make keep more fs (some dir) = keep
on_the_way make keep more fs (some (file b r t)) = fail (in_the_way more) fs
on_the_way make keep more fs (some special) = fail (in_the_way more) fs

-- `fs::create_dir_all`, as one call: what is missing of the path, from the front on.
abbrev pub make_from : FilePath → FilePath → Fs → Result IoError (Unit {0}) × Fs
make_from place [] fs = (ok tt, fs)
make_from place (c ∷ more) fs =
    let here = place ++ c ∷ [] in
    on_the_way (make_from here more (put here dir fs)) (make_from here more fs) more fs (at here fs)

unfoldable pub create_dir_all : FilePath → Io (Unit {0})
unfolding sys at put
create_dir_all p = sys (make_from [] p)
