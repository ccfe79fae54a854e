-- ===== src/Protect.antt =====
-- src/protect.rs: write protection on a finished entry, and the way past it. The log lines are left
-- out; a mode is the read-only flag alone.
pub mod Laws
use immure.Prelude.{ℕ, Bool, true, false, ◌==◌, if◌then◌else◌}
use immure.FilePath.{FilePath}
use immure.Error.{ErrorKind, permission_denied, IoError, kind, Result, ok, err}
use immure.World.{Node, file, dir, special, World, Io, metadata, set_read_only, remove}

abbrev pub unknown : ℕ
unknown = 0

abbrev pub holds : ℕ
holds = 1

abbrev pub ignored : ℕ
ignored = 2

abbrev pub succeeded : {E A : Type 0} → Result E A → Bool
succeeded (ok a) = true
succeeded (err e) = false

abbrev pub readonly : Result IoError Node → Bool
readonly (ok (file b r t)) = r
readonly (ok dir) = false
readonly (ok special) = false
readonly (err e) = false

unfoldable pub drop_write_bits : FilePath → World → Bool × World
unfolding metadata set_read_only
drop_write_bits p w =
    let looked = metadata p w in
    if succeeded looked.0
    then (let dropped = set_read_only p true looked.1 in (succeeded dropped.0, dropped.1))
    else (false, looked.1)

unfoldable pub is_read_only : FilePath → World → Bool × World
unfolding metadata
is_read_only p w = let looked = metadata p w in (readonly looked.0, looked.1)

-- The first entry settles it: `drop_write_bits(path) && is_read_only(path)`.
abbrev pub settle : FilePath → World → World
settle p w =
    let dropped = drop_write_bits p w in
    if dropped.0
    then (let seen = is_read_only p dropped.1 in
        record seen.1 { protection = if seen.0 then holds else ignored })
    else record dropped.1 { protection = ignored }

unfoldable pub apply : FilePath → World → World
unfolding drop_write_bits is_read_only
apply p w =
    let dropped = drop_write_bits p w in
    if w.protection == unknown
    then settle p w
    else if w.protection == holds
    then (if dropped.0 then dropped.1 else record dropped.1 { protection = ignored })
    else w

unfoldable pub unprotect : FilePath → World → World
unfolding metadata set_read_only
unprotect p w =
    let looked = metadata p w in
    if succeeded looked.0 then (set_read_only p false looked.1).1 else looked.1

abbrev pub is_permission_denied : ErrorKind → Bool
is_permission_denied permission_denied = true
is_permission_denied _ = false

abbrev pub asked_again : FilePath → Result IoError (Unit {0}) → Io (Unit {0})
asked_again p (ok u) w = (ok u, w)
asked_again p (err e) w =
    if is_permission_denied (kind e) then remove p (unprotect p w) else (err e, w)

unfoldable pub remove_file : FilePath → Io (Unit {0})
unfolding remove unprotect
remove_file p w = let first = remove p w in asked_again p first.0 first.1
