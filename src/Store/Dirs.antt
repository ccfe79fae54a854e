-- ===== src/Store/Dirs.antt =====
-- The directories that `Store::make_dir` of src/store.rs makes, where no call meets a failure.
use immure.Prelude.{
  ◌≡◌, refl, ap, sym, ◌∙◌, ◌⊎◌, inl, inr, true, some, none, [], ◌∷◌, ◌++◌, append_assoc, append-nil,
  Bool-cases,
}
use mathlib.Core.Path.{subst}
use immure.FilePath.{OsName, FilePath, parent}
use immure.Error.{os, already_exists, ok, err, ctx}
use immure.World.{
  dir, Fs, at, put, has_parent, is_dir, World, context, create_dir, create_dir_all, sys, meet,
}
use immure.World.Calls.{at-put_self}
use immure.World.Dirs.{
  IsClear, ClearFrom, IsMade, IsMade-nil, stepped, later_clear, put-other, put_keeps,
  create_dir_all_calm,
}
use immure.Store.{Store}
use immure.Store.Make.{make_below, make_dir}
use immure.Store.Roots.{to_below}

parent_step : (place : FilePath) (c : OsName) → parent (place ++ c ∷ []) ≡ place
parent_step [] c = refl
parent_step (d ∷ []) c = refl
parent_step (d ∷ e ∷ p) c = ap (λ r. d ∷ r) (parent_step (e ∷ p) c)

-- A directory, or the root of the file system.
abbrev pub IsHome : FilePath → Fs → Type 0
IsHome place fs = (place ≡ []) ⊎ (at place fs ≡ some dir)

pub has_parent_step :
    (place : FilePath) (c : OsName) (fs : Fs)
    → IsHome place fs
    → has_parent (place ++ c ∷ []) fs ≡ true
has_parent_step [] c fs home = refl
has_parent_step (d ∷ p) c fs (inl e) = cc
has_parent_step (d ∷ []) c fs (inr e) = ap is_dir e
has_parent_step (d ∷ e ∷ p) c fs (inr there) =
    ap (λ q. is_dir (at (d ∷ q) fs)) (parent_step (e ∷ p) c) ∙ ap is_dir there

create_dir_calm :
    (p : FilePath) (w : World)
    → w.script ≡ []
    → at p w.fs ≡ none
    → has_parent p w.fs ≡ true
    → create_dir p w ≡ (ok tt, record w { fs = put p dir w.fs })
unfolding create_dir sys meet
create_dir_calm p w calm free above = rw (calm, free, above) refl

create_dir_taken :
    (p : FilePath) (w : World)
    → w.script ≡ []
    → at p w.fs ≡ some dir
    → create_dir p w ≡ (err (os already_exists []), w)
unfolding create_dir sys meet
create_dir_taken p w calm there = rw (calm, there) refl

below_free :
    (s : Store) (place more : FilePath) (c : OsName) (w : World)
    → w.script ≡ []
    → at (place ++ c ∷ []) w.fs ≡ none
    → has_parent (place ++ c ∷ []) w.fs ≡ true
    → make_below s place (c ∷ more) w
      ≡ make_below s (place ++ c ∷ []) more (record w { fs = put (place ++ c ∷ []) dir w.fs })
unfolding make_below
below_free s place more c w calm free above =
    simp (create_dir_calm (place ++ c ∷ []) w calm free above)

below_there :
    (s : Store) (place more : FilePath) (c : OsName) (w : World)
    → w.script ≡ []
    → at (place ++ c ∷ []) w.fs ≡ some dir
    → make_below s place (c ∷ more) w ≡ make_below s (place ++ c ∷ []) more w
unfolding make_below
below_there s place more c w calm there = simp (create_dir_taken (place ++ c ∷ []) w calm there)

make_below_lem :
    (s : Store) (place more : FilePath) (w : World)
    → w.script ≡ []
    → IsHome place w.fs
    → ClearFrom place more w.fs
    → (after : Fs) × (make_below s place more w ≡ (ok tt, record w { fs = after }))
      × IsMade place more w.fs after
unfolding make_below
make_below_lem s place [] w calm home clear = (w.fs, refl, IsMade-nil place w.fs)
make_below_lem s place (c ∷ more) w calm home clear = elim (clear [] more c refl) [
  | inl free ↦
      let middle = put (place ++ c ∷ []) dir w.fs in
      let here = at-put_self (place ++ c ∷ []) dir w.fs in
      let same : (q : FilePath) → (place ++ c ∷ [] ≡ q → ⊥) → at q middle ≡ at q w.fs =
        λ q away. put-other (place ++ c ∷ []) q dir w.fs away in
      let (after, run, made) =
        make_below_lem s (place ++ c ∷ []) more (record w { fs = middle }) calm (inr here)
          (later_clear place more c w.fs middle same here clear) in
      (
        after,
        below_free s place more c w calm free (has_parent_step place c w.fs home) ∙ run,
        stepped place more c w.fs middle after
            (λ q n e. put_keeps (place ++ c ∷ []) q dir n w.fs free e) same here made,
      )
  | inr there ↦
      let (after, run, made) =
        make_below_lem s (place ++ c ∷ []) more w calm (inr there)
          (later_clear place more c w.fs w.fs (λ q away. refl) there clear) in
      (
        after,
        below_there s place more c w calm there ∙ run,
        stepped place more c w.fs w.fs after (λ q n e. e) (λ q away. refl) there made,
      )
]

-- Every step of the way to the path is free or a directory.
abbrev pub IsReachable : FilePath → Fs → Type 0
IsReachable p fs = ClearFrom [] p fs

clear_below :
    (root below : FilePath) (fs : Fs) → IsReachable (root ++ below) fs → ClearFrom root below fs
clear_below root below fs clear front back c e =
    subst (λ p. IsClear (at p fs)) (append_assoc root front (c ∷ []))
      (clear (root ++ front) back c (ap (λ l. root ++ l) e ∙ simp (append_assoc)))

root_there :
    (root below : FilePath) (c : OsName) (rest : FilePath) (before after : Fs)
    → IsMade [] (root ++ below) before after
    → below ≡ c ∷ rest
    → at (root ++ below) after ≡ some dir
root_there [] below c rest before after made e = made.there c rest e
root_there (d ∷ root) below c rest before after made e = made.there d (root ++ below) refl

from_root :
    (root below : FilePath) (before after : Fs)
    → IsMade [] (root ++ below) before after
    → IsMade root below before after
from_root root below before after made = record {
  kept = made.kept;
  clear = made.clear;
  off = made.off;
  there = λ c rest e. root_there root below c rest before after made e;
}

to_all :
    (s : Store) (p : FilePath) (w : World)
    → s.creates_root ≡ true
    → make_dir s p w ≡ context (create_dir_all p) w
unfolding make_dir
to_all s p w keeps = simp (make_dir, keeps)

all_made :
    (s : Store) (p : FilePath) (w : World) (after : Fs)
    → create_dir_all p w ≡ (ok tt, record w { fs = after })
    → context (create_dir_all p) w ≡ (ok tt, record w { fs = after })
unfolding ctx
all_made s p w after run = rw run refl

pub make_dir_lem :
    (s : Store) (below : FilePath) (w : World)
    → w.script ≡ []
    → IsHome s.layout.root w.fs
    → IsReachable (s.layout.root ++ below) w.fs
    → (after : Fs) × (make_dir s (s.layout.root ++ below) w ≡ (ok tt, record w { fs = after }))
      × IsMade s.layout.root below w.fs after
make_dir_lem s below w calm home clear = elim (Bool-cases s.creates_root) [
  | inl creates ↦
      let (after, run, made) = create_dir_all_calm (s.layout.root ++ below) w calm clear in
      (
        after,
        to_all s (s.layout.root ++ below) w creates
            ∙ all_made s (s.layout.root ++ below) w after run,
        from_root s.layout.root below w.fs after made,
      )
  | inr finds ↦
      let (after, run, made) =
        make_below_lem s s.layout.root below w calm home
          (clear_below s.layout.root below w.fs clear) in
      (after, to_below s below w finds ∙ run, made)
]

-- What was made is a directory, also where nothing had to be made.
pub IsHome-made :
    (root more : FilePath) (before after : Fs)
    → IsHome root before
    → IsMade root more before after
    → IsHome (root ++ more) after
IsHome-made root [] before after (inl e) made = inl (append-nil root ∙ e)
IsHome-made root [] before after (inr there) made =
    inr (subst (λ p. at p after ≡ some dir) (sym (append-nil root)) (made.kept root dir there))
IsHome-made root (c ∷ more) before after home made = inr (made.there c more refl)
