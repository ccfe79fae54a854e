-- ===== src/Store/Roots.antt =====
-- The root directory that is not there, for `Store::make_dir` of src/store.rs.
use immure.Prelude.{◌≡◌, refl, ◌∙◌, false, some, none, [], ◌∷◌, ◌++◌, arith}
use immure.FilePath.{OsName, FilePath, name_eq_iff}
use immure.Error.{os, not_found, root_missing, err}
use immure.World.{World, at, has_parent, create_dir, sys, meet}
use immure.Store.{Store}
use immure.Store.Make.{strip_prefix, make_below, make_dir, root_is_gone}

pub strip_prefix-append : (root below : FilePath) → strip_prefix (root ++ below) root ≡ some below
unfolding strip_prefix
strip_prefix-append [] [] = refl
strip_prefix-append [] (c ∷ below) = refl
strip_prefix-append (c ∷ root) below =
    ground (arith, (name_eq_iff c c).1 refl, strip_prefix-append root below)

create_dir_homeless :
    (p : FilePath) (w : World)
    → w.script ≡ []
    → at p w.fs ≡ none
    → has_parent p w.fs ≡ false
    → create_dir p w ≡ (err (os not_found []), w)
unfolding create_dir sys meet
create_dir_homeless p w calm free above = rw (calm, free, above) refl

below_missing :
    (s : Store) (c : OsName) (more : FilePath) (w : World)
    → w.script ≡ []
    → at (s.layout.root ++ c ∷ []) w.fs ≡ none
    → has_parent (s.layout.root ++ c ∷ []) w.fs ≡ false
    → make_below s s.layout.root (c ∷ more) w ≡ (err (root_missing s.layout.root), w)
unfolding make_below root_is_gone
below_missing s c more w calm free above =
    simp (create_dir_homeless (s.layout.root ++ c ∷ []) w calm free above)

pub to_below :
    (s : Store) (below : FilePath) (w : World)
    → s.creates_root ≡ false
    → make_dir s (s.layout.root ++ below) w ≡ make_below s s.layout.root below w
unfolding make_dir
to_below s below w keeps = simp (make_dir, keeps, strip_prefix-append s.layout.root below)

-- When no call meets a failure, for a store that does not make its root, a directory to be
-- made below the root, and a root that is not there, nor anything under the first name below
-- it: `make_dir` answers with `RootMissing` and makes nothing.
pub make_dir-root_missing :
    (s : Store) (c : OsName) (more : FilePath) (w : World)
    → s.creates_root ≡ false
    → w.script ≡ []
    → at (s.layout.root ++ c ∷ []) w.fs ≡ none
    → has_parent (s.layout.root ++ c ∷ []) w.fs ≡ false
    → make_dir s (s.layout.root ++ c ∷ more) w ≡ (err (root_missing s.layout.root), w)
make_dir-root_missing s c more w keeps calm free above =
    to_below s (c ∷ more) w keeps ∙ below_missing s c more w calm free above
