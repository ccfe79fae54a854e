-- ===== src/Store/Prune/Leftovers.antt =====
-- What `Store::prune_temp_files` of src/store.rs takes away where no call meets a failure.
use immure.Prelude.{
  ℕ, ◌+◌, ◌-◌, ◌≤◌, ◌≡◌, refl, ap, ◌∙◌, inl, inr, true, false, Bool-cases, none, some, List, [],
  ◌∷◌, ◌++◌, arith,
}
use mathlib.Core.Path.{subst}
use mathlib.Core.List.Memᴰ
use immure.FilePath.{OsName, FilePath, join}
use immure.Error.{ok, ctx}
use immure.Exec.{pure}
use immure.World.{Node, dir, Fs, at, World, Op}
use immure.World.Listed.{read_dir_calm, next_item_calm}
use immure.World.Listing.{children, next_item}
use immure.Temp.{temp_dir_name}
use immure.Store.{Store}
use immure.Store.Prune.{checked_sub, is_temp_item, sweep_one, sweep, swept, prune_temp_files}
use immure.Store.Prune.Leftover.{sweep_one_lem}
use immure.Store.Prune.Swept.{IsSwept, keep_one, skip_one, take_one}

skip_run :
    (cutoff : ℕ) (place : FilePath) (c : OsName) (n : Node) (more : List (OsName × Node)) (k : ℕ)
    (w : World)
    → next_item c w ≡ (ok c, w)
    → is_temp_item c ≡ false
    → sweep cutoff place ((c, n) ∷ more) k w ≡ sweep cutoff place more (k + 0) w
unfolding sweep ctx
skip_run cutoff place c n more k w item other = rw (item, other) refl

step_run :
    (cutoff : ℕ) (place : FilePath) (c : OsName) (n : Node) (more : List (OsName × Node))
    (k count : ℕ) (w after : World)
    → next_item c w ≡ (ok c, w)
    → is_temp_item c ≡ true
    → sweep_one cutoff (place ++ c ∷ []) w ≡ (ok count, after)
    → sweep cutoff place ((c, n) ∷ more) k w ≡ sweep cutoff place more (k + count) after
unfolding sweep ctx
step_run cutoff place c n more k count w after item temp run = rw (item, temp, run) refl

sweep_lem :
    (cutoff : ℕ) (place : FilePath) (items : List (OsName × Node)) (k : ℕ) (w : World)
    → w.script ≡ []
    → (count : ℕ) × (fs : Fs) × (sweep cutoff place items k w ≡ (ok count, record w { fs = fs }))
      × IsSwept cutoff place items w.fs fs
unfolding sweep
sweep_lem cutoff place [] k w calm = (
  k,
  w.fs,
  refl,
  record { others = λ q. inl refl; gone = λ c n m temp stale. absurd (Memᴰ.not-nil m) },
)
sweep_lem cutoff place ((c, n) ∷ more) k w calm = elim (Bool-cases (is_temp_item c)) [
  | inr other ↦
      let (count, fs, run, done) = sweep_lem cutoff place more (k + 0) w calm in
      (
        count,
        fs,
        skip_run cutoff place c n more k w (next_item_calm c w calm) other ∙ run,
        skip_one cutoff place c n more w.fs fs other done,
      )
  | inl temp ↦
      let (one, fs1, run_one, how) = sweep_one_lem cutoff (place ++ c ∷ []) w calm in
      let (count, fs, run, done) =
        sweep_lem cutoff place more (k + one) (record w { fs = fs1 }) calm in
      (
        count,
        fs,
        step_run cutoff place c n more k one w (record w { fs = fs1 }) (next_item_calm c w calm)
              temp run_one
            ∙ run,
        elim how [
          | inl (same, young) ↦
              keep_one cutoff place c n more w.fs fs young
                (subst (λ fs1. IsSwept cutoff place more fs1 fs) same done)
          | inr (erased, stale) ↦
              take_one cutoff place c n more w.fs fs temp stale
                (subst (λ fs1. IsSwept cutoff place more fs1 fs) erased done)
        ],
      )
]

abbrev temp_place : Store → FilePath
temp_place s = join s.layout.root temp_dir_name

swept_run :
    (place : FilePath) (age : ℕ) (items : List (OsName × Node)) (w : World)
    → age ≤ w.clock
    → swept place age (ok items) w ≡ sweep (w.clock - age) place items 0 w
swept_run place age items w reaches =
    let reached : checked_sub w.clock age ≡ some (w.clock - age) = ground arith in
    ap (λ o. (elim o as (λ _. Op ℕ) [ none ↦ pure 0 | some cutoff ↦ sweep cutoff place items 0 ]) w)
      reached

-- When no call meets a failure, the temporary directory is there and the clock reaches back
-- over the age: after `prune_temp_files` each path is as it was, or there was a file with a
-- temporary name in the temporary directory, last written that long ago, and it is gone; and
-- every such file that the directory lists is gone.
pub prune_temp_files-IsSwept :
    (s : Store) (age : ℕ) (w : World)
    → w.script ≡ []
    → at (temp_place s) w.fs ≡ some dir
    → age ≤ w.clock
    → (count : ℕ) × (fs : Fs) × (prune_temp_files s age w ≡ (ok count, record w { fs = fs }))
      × IsSwept (w.clock - age) (temp_place s) (children (temp_place s) w.fs) w.fs fs
unfolding prune_temp_files
prune_temp_files-IsSwept s age w calm found reaches =
    let (count, fs, run, done) =
      sweep_lem (w.clock - age) (temp_place s) (children (temp_place s) w.fs) 0 w calm in
    (
      count,
      fs,
      rw (read_dir_calm (temp_place s) w calm found)
          (swept_run (temp_place s) age (children (temp_place s) w.fs) w reaches ∙ run),
      done,
    )
