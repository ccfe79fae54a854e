-- ===== src/Store/Prune.antt =====
-- src/store.rs: the sweeps over what interrupted writes and removals leave behind.
pub mod Leftover
pub mod Swept
pub mod Leftovers
use immure.Prelude.{
  ℕ, zero, suc, ◌+◌, ◌-◌, Text, Bool, true, false, not, ◌&&◌, Option, none, some, List, [], ◌∷◌,
  ◌++◌, length, ltb, leb, sort, if◌then◌else◌,
}
use immure.FilePath.{OsName, utf8, FilePath, name_eq, to_str, join}
use immure.Error.{IoError, kind, Error, Result, ok, err}
use immure.Exec.{◌>>=◌, ◌>>◌, pure, raise, gets}
use immure.World.{Node, file, dir, special, World, Op, context, metadata}
use immure.World.Listing.{read_dir, next_item, remove_dir}
use immure.Protect.{succeeded, remove_file}
use immure.Temp.{answer_of, temp_dir_name, is_temp_name}
use immure.Store.{Store, is_not_found}

-- `DEFAULT_TEMP_MIN_AGE`, in seconds
abbrev pub default_temp_min_age : ℕ
default_temp_min_age = 86400

-- `SystemTime::checked_sub`, for a clock that counts from the earliest time it can say.
abbrev pub checked_sub : ℕ → ℕ → Option ℕ
checked_sub now age = if ltb now age then none else some (now - age)

abbrev pub is_temp_item : OsName → Bool
is_temp_item c = elim (to_str c) [ none ↦ false | some name ↦ is_temp_name name ]

-- A file, and old enough.
abbrev pub is_stale : ℕ → Result IoError Node → Bool
is_stale cutoff (ok (file b r modified)) = leb modified cutoff
is_stale cutoff (ok dir) = false
is_stale cutoff (ok special) = false
is_stale cutoff (err e) = false

abbrev pub one_if : Bool → ℕ
one_if true = 1
one_if false = 0

-- One leftover: how many files went away, none where it is kept.
unfoldable pub sweep_one : ℕ → FilePath → Op ℕ
unfolding metadata remove_file
sweep_one cutoff p = do
  seen ← answer_of (metadata p)
  if is_stale cutoff seen
      then (do gone ← answer_of (remove_file p); pure (one_if (succeeded gone)))
      else pure 0

unfoldable pub sweep : ℕ → FilePath → List (OsName × Node) → ℕ → Op ℕ
unfolding next_item is_temp_name sweep_one
sweep cutoff place [] removed = pure removed
sweep cutoff place ((c, n) ∷ more) removed = do
  item ← context (next_item c)
  count ← if is_temp_item item then sweep_one cutoff (place ++ item ∷ []) else pure 0
  sweep cutoff place more (removed + count)

abbrev pub swept : FilePath → ℕ → Result IoError (List (OsName × Node)) → Op ℕ
swept place age (err e) = if is_not_found (kind e) then pure 0 else context (raise e)
swept place age (ok items) = do
  now ← gets (λ w. w.clock)
  elim (checked_sub now age) [ none ↦ pure 0 | some cutoff ↦ sweep cutoff place items 0 ]

unfoldable pub prune_temp_files : Store → ℕ → Op ℕ
unfolding read_dir sweep
prune_temp_files s age = do
  listing ← answer_of (read_dir (join s.layout.root temp_dir_name))
  swept (join s.layout.root temp_dir_name) age listing

abbrev is_folder : Node → Bool
is_folder dir = true
is_folder (file b r t) = false
is_folder special = false

abbrev below :
    FilePath
    → Option (List FilePath)
    → (List FilePath → Op (Option (List FilePath)))
    → Op (Option (List FilePath))
below p none more = pure none
below p (some inner) more = more (inner ++ p ∷ [])

unfoldable pub collect_items :
    (FilePath → Op (Option (List FilePath)))
    → FilePath
    → Bool
    → List (OsName × Node)
    → List FilePath
    → Op (Option (List FilePath))
unfolding next_item name_eq
collect_items again p is_root [] found = pure (some found)
collect_items again p is_root ((c, n) ∷ more) found = do
  item ← context (next_item c)
  if is_root && name_eq item (utf8 temp_dir_name)
      then collect_items again p is_root more found
      else (do
        type ← context (next_item n)
        if is_folder type
            then (do
              inner ← again (p ++ item ∷ [])
              below (p ++ item ∷ []) inner
                  (λ dirs. collect_items again p is_root more (found ++ dirs)))
            else collect_items again p is_root more found)

-- Every directory below `p`, the deepest last; `none` where the tree is deeper than `depth`.
unfoldable pub collect_dirs : ℕ → FilePath → Bool → Op (Option (List FilePath))
unfolding read_dir collect_items
collect_dirs zero p is_root = pure none
collect_dirs (suc depth) p is_root = do
  items ← context (read_dir p)
  collect_items (λ q. collect_dirs depth q false) p is_root items []

-- The order of `Reverse(path.components().count())`.
abbrev pub deeper : FilePath → FilePath → Bool
deeper p q = ltb (length q) (length p)

unfoldable pub remove_dirs : List FilePath → ℕ → Op ℕ
unfolding remove_dir
remove_dirs [] removed = pure removed
remove_dirs (p ∷ more) removed = do
  gone ← answer_of (remove_dir p)
  remove_dirs more (removed + one_if (succeeded gone))

abbrev removed_all : Option (List FilePath) → Op (Option ℕ)
removed_all none = pure none
removed_all (some dirs) = do removed ← remove_dirs (sort deeper dirs) 0; pure (some removed)

unfoldable pub prune_empty_dirs : ℕ → Store → Op (Option ℕ)
unfolding collect_dirs remove_dirs sort
prune_empty_dirs depth s = do dirs ← collect_dirs depth s.layout.root true; removed_all dirs
