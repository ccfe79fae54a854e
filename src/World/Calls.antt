-- ===== src/World/Calls.antt =====
-- The file system map: what is found after a change.
use immure.Prelude.{◌≡◌, refl, Bool, true, none, some, List, [], ◌∷◌, if◌then◌else◌, arith}
use immure.FilePath.{FilePath, path_eq, path_eq_iff}
use immure.Prelude.{false}
use immure.Error.{ok, err, os, not_found, already_exists}
use immure.World.{
  read_file, Node, file, Fs, at, erase, put, World, metadata, create_new, set_read_only, remove,
  rename, has_parent, sys, meet,
}
use immure.Prelude.{ℕ}

pub at-erase :
    (p q : FilePath) (fs : Fs) → at q (erase p fs) ≡ (if path_eq p q then none else at q fs)
unfolding at erase
at-erase p q [] = ground arith
at-erase p q ((r, n) ∷ fs) =
    ground (arith, at-erase p q fs, path_eq_iff r p, path_eq_iff r q, path_eq_iff p q)

pub at-put :
    (p q : FilePath) (n : Node) (fs : Fs)
    → at q (put p n fs) ≡ (if path_eq p q then some n else at q fs)
unfolding at put
at-put p q n fs = ground (arith, at-erase p q fs)

pub ruleset fs_laws = (at-erase, at-put)

-- Calls that meet nothing unusual.
pub metadata_calm :
    (p : FilePath) (n : Node) (w : World)
    → w.script ≡ []
    → at p w.fs ≡ some n
    → metadata p w ≡ (ok n, w)
unfolding metadata sys meet
metadata_calm p n w calm there = rw (calm, there) refl

pub read_file_calm :
    (p : FilePath) (b : List ℕ) (r : Bool) (t : ℕ) (w : World)
    → w.script ≡ []
    → at p w.fs ≡ some (file b r t)
    → read_file p w ≡ (ok b, w)
unfolding read_file sys meet
read_file_calm p b r t w calm there = rw (calm, there) refl

pub set_read_only_calm :
    (p : FilePath) (flag : Bool) (b : List ℕ) (r : Bool) (t : ℕ) (w : World)
    → w.script ≡ []
    → at p w.fs ≡ some (file b r t)
    → set_read_only p flag w ≡ (ok tt, record w { fs = put p (file b flag t) w.fs })
unfolding set_read_only sys meet
set_read_only_calm p flag b r t w calm there = rw (calm, there) refl

pub remove_calm :
    (p : FilePath) (b : List ℕ) (r : Bool) (t : ℕ) (w : World)
    → w.script ≡ []
    → at p w.fs ≡ some (file b r t)
    → remove p w ≡ (ok tt, record w { fs = erase p w.fs })
unfolding remove sys meet
remove_calm p b r t w calm there = rw (calm, there) refl

pub at-put_self : (p : FilePath) (n : Node) (fs : Fs) → at p (put p n fs) ≡ some n
at-put_self p n fs = rw (at-put p p n fs, (path_eq_iff p p).1 refl) refl

pub at-erase_self : (p : FilePath) (fs : Fs) → at p (erase p fs) ≡ none
at-erase_self p fs = rw (at-erase p p fs, (path_eq_iff p p).1 refl) refl

pub metadata_missing :
    (p : FilePath) (w : World)
    → w.script ≡ []
    → at p w.fs ≡ none
    → metadata p w ≡ (err (os not_found []), w)
unfolding metadata sys meet
metadata_missing p w calm there = rw (calm, there) refl

pub rename_calm :
    (p q : FilePath) (n : Node) (w : World)
    → w.script ≡ []
    → at p w.fs ≡ some n
    → at q w.fs ≡ none
    → has_parent q w.fs ≡ true
    → rename p q w ≡ (ok tt, record w { fs = put q n (erase p w.fs) })
unfolding rename sys meet
rename_calm p q n w calm there free above = rw (calm, there, free, above) refl

abbrev pub IsTaken : FilePath → Fs → Type 0
IsTaken p fs = (n : Node) × (at p fs ≡ some n)

pub create_new_calm :
    (p : FilePath) (now : ℕ) (w : World)
    → w.script ≡ []
    → at p w.fs ≡ none
    → has_parent p w.fs ≡ true
    → create_new p now w ≡ (ok tt, record w { fs = put p (file [] false now) w.fs })
unfolding create_new sys meet
create_new_calm p now w calm free above = rw (calm, free, above) refl

pub create_new_taken :
    (p : FilePath) (now : ℕ) (w : World)
    → w.script ≡ []
    → IsTaken p w.fs
    → create_new p now w ≡ (err (os already_exists []), w)
unfolding create_new sys meet
create_new_taken p now w calm (n, there) = rw (calm, there) refl
