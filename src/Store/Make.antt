-- ===== src/Store/Make.antt =====
-- src/store.rs: the directories that a write makes, and a root that is not there.
use immure.Prelude.{Bool, true, false, not, ◌&&◌, Option, none, some, [], ◌∷◌, ◌++◌, if◌then◌else◌}
use immure.FilePath.{FilePath, name_eq, join}
use immure.Error.{
  not_found, not_a_directory, resource_busy, IoError, kind, Error, io, root_missing, Result, ok,
  err,
}
use immure.Exec.{◌>>=◌, ◌>>◌, pure, raise}
use immure.World.{Op, context, create_dir, create_dir_all}
use immure.Temp.{answer_of, is_already_exists, temp_dir_name}
use immure.Store.{Store}

unfoldable pub root_is_gone : IoError → Bool
root_is_gone e = elim (kind e) [
  | not_found ↦ true
  | not_a_directory ↦ true
  | resource_busy ↦ true
  | _ ↦ false
]

-- `Store::root_gone`
unfoldable pub root_gone : Store → Error → Error
unfolding root_is_gone
root_gone s (io e) =
    if not s.creates_root && root_is_gone e then root_missing s.layout.root else io e
root_gone s e = e

abbrev pub root_told : {A : Type 0} → Store → Result Error A → Result Error A
root_told s (ok a) = ok a
root_told s (err e) = err (root_gone s e)

-- `.map_err(|err| self.root_gone(err))`
abbrev pub or_root_gone : {A : Type 0} → Store → Op A → Op A
or_root_gone s m w = let r = m w in (root_told s r.0, r.1)

unfoldable pub strip_prefix : FilePath → FilePath → Option FilePath
unfolding name_eq
strip_prefix p [] = some p
strip_prefix [] (d ∷ root) = none
strip_prefix (c ∷ p) (d ∷ root) = if name_eq c d then strip_prefix p root else none

abbrev pub made_one : Store → Op (Unit {0}) → Result IoError (Unit {0}) → Op (Unit {0})
made_one s more (ok u) = more
made_one s more (err e) =
    if is_already_exists (kind e)
    then more
    else if root_is_gone e
    then raise (root_missing s.layout.root)
    else context (raise e)

unfoldable pub make_below : Store → FilePath → FilePath → Op (Unit {0})
unfolding create_dir root_is_gone
make_below s place [] = pure tt
make_below s place (c ∷ more) = do
  answer ← answer_of (create_dir (place ++ c ∷ []))
  made_one s (make_below s (place ++ c ∷ []) more) answer

unfoldable pub make_dir : Store → FilePath → Op (Unit {0})
unfolding create_dir_all strip_prefix make_below
make_dir s p =
    if s.creates_root then context (create_dir_all p) else elim (strip_prefix p s.layout.root) [
      | none ↦ context (create_dir_all p)
      | some below ↦ make_below s s.layout.root below
    ]

unfoldable pub temp_dir : Store → Op FilePath
unfolding make_dir
temp_dir s = do
  make_dir s (join s.layout.root temp_dir_name)
  pure (join s.layout.root temp_dir_name)
