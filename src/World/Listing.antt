-- ===== src/World/Listing.antt =====
-- The listings of `std::fs` that src/store.rs reads: what lies directly in a directory, in the
-- order of the file system, which nothing relies on. A listing may fail at each of its items.
use immure.Prelude.{Option, none, some, List, [], ◌∷◌, is_empty, if◌then◌else◌}
use immure.FilePath.{OsName, FilePath, name_eq}
use immure.Error.{not_found, not_a_directory, other, IoError, Result, ok}
use immure.World.{Node, file, dir, special, Fs, at, erase, sys, Io, fail}

-- The name under which the second path lies directly in the first.
unfoldable pub child_of : FilePath → FilePath → Option OsName
unfolding name_eq
child_of [] [] = none
child_of [] (c ∷ []) = some c
child_of [] (c ∷ d ∷ q) = none
child_of (b ∷ p) [] = none
child_of (b ∷ p) (c ∷ q) = let rest = child_of p q in if name_eq b c then rest else none

unfoldable pub children : FilePath → Fs → List (OsName × Node)
unfolding child_of
children p [] = []
children p ((q, n) ∷ fs) =
    let rest = children p fs in elim (child_of p q) [ none ↦ rest | some c ↦ (c, n) ∷ rest ]

abbrev pub listed : FilePath → Option Node → Fs → Result IoError (List (OsName × Node)) × Fs
listed p none fs = fail not_found fs
listed p (some dir) fs = (ok (children p fs), fs)
listed p (some (file b r t)) fs = fail not_a_directory fs
listed p (some special) fs = fail not_a_directory fs

-- `fs::read_dir`
unfoldable pub read_dir : FilePath → Io (List (OsName × Node))
unfolding sys at children
read_dir p = sys (λ fs. listed p (at p fs) fs)

-- One item of a listing, and what it is asked for: `DirEntry::file_type`, `DirEntry::metadata`.
unfoldable pub next_item : {A : Type 0} → A → Io A
unfolding sys
next_item a = sys (λ fs. (ok a, fs))

abbrev pub vacate : FilePath → Option Node → Fs → Result IoError (Unit {0}) × Fs
vacate p (some dir) fs = if is_empty (children p fs) then (ok tt, erase p fs) else fail other fs
vacate p none fs = fail not_found fs
vacate p (some (file b r t)) fs = fail not_a_directory fs
vacate p (some special) fs = fail not_a_directory fs

-- `fs::remove_dir`, which refuses a directory that holds anything.
unfoldable pub remove_dir : FilePath → Io (Unit {0})
unfolding sys at children erase
remove_dir p = sys (λ fs. vacate p (at p fs) fs)
