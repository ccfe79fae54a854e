-- ===== src/Store/Prune/Leftover.antt =====
-- What one leftover comes to, for `Store::prune_temp_files` of src/store.rs.
use immure.Prelude.{
  ℕ, ◌≤◌, ◌≡◌, refl, sym, ◌∙◌, ◌⊎◌, inl, inr, Bool, Bool-cases, Option, none, some, Option-cases,
  List, [], leb, arith,
}
use immure.FilePath.{FilePath}
use immure.Error.{ok}
use immure.World.{Node, file, dir, special, Fs, at, erase, World}
use immure.World.Calls.{metadata_calm, metadata_missing}
use immure.Protect.Laws.{remove_file_calm}
use immure.Store.Prune.{sweep_one}

-- A file last written by then lies under the path.
abbrev pub StaleAt : ℕ → FilePath → Fs → Type 0
StaleAt cutoff p fs =
    (b : List ℕ) × (r : Bool) × (t : ℕ) × (at p fs ≡ some (file b r t)) × (t ≤ cutoff)

-- What one leftover comes to.
abbrev SweptOne : ℕ → FilePath → World → Type 0
SweptOne cutoff p w =
    (k : ℕ) × (fs : Fs) × (sweep_one cutoff p w ≡ (ok k, record w { fs = fs }))
    × (((fs ≡ w.fs) × (StaleAt cutoff p w.fs → ⊥)) ⊎ ((fs ≡ erase p w.fs) × StaleAt cutoff p w.fs))

some_file : (o : Option Node) (b : List ℕ) (r : Bool) (t : ℕ) → o ≡ none → o ≡ some (file b r t) → ⊥
some_file o b r t gone e = cc

not_file :
    (o : Option Node) (b : List ℕ) (r : Bool) (t : ℕ)
    → (o ≡ some dir) ⊎ (o ≡ some special)
    → o ≡ some (file b r t)
    → ⊥
not_file o b r t (inl is_dir) e = cc
not_file o b r t (inr is_special) e = cc

same_time :
    (b b' : List ℕ) (r r' : Bool) (t t' : ℕ) → some (file b r t) ≡ some (file b' r' t') → t ≡ t'
same_time b b' r r' t t' e = cc

sweep_one-missing :
    (cutoff : ℕ) (p : FilePath) (w : World) → w.script ≡ [] → at p w.fs ≡ none → SweptOne cutoff p w
unfolding sweep_one
sweep_one-missing cutoff p w calm gone = (
  0,
  w.fs,
  rw (metadata_missing p w calm gone) refl,
  inl (refl, λ x. let (b, r, t, e, low) = x in some_file _ b r t gone e),
)

sweep_one-there :
    (cutoff : ℕ) (p : FilePath) (w : World) (n : Node)
    → w.script ≡ []
    → at p w.fs ≡ some n
    → SweptOne cutoff p w
unfolding sweep_one
sweep_one-there cutoff p w dir calm there = (
  0,
  w.fs,
  rw (metadata_calm p dir w calm there) refl,
  inl (refl, λ x. let (b, r, t, e, low) = x in not_file _ b r t (inl there) e),
)
sweep_one-there cutoff p w special calm there = (
  0,
  w.fs,
  rw (metadata_calm p special w calm there) refl,
  inl (refl, λ x. let (b, r, t, e, low) = x in not_file _ b r t (inr there) e),
)
sweep_one-there cutoff p w (file b r t) calm there = elim (Bool-cases (leb t cutoff)) [
  | inl old ↦ (
    1,
    erase p w.fs,
    rw (metadata_calm p (file b r t) w calm there, old, remove_file_calm p b r t w calm there) refl,
    inr (refl, (b, r, t, there, ground arith)),
  )
  | inr young ↦ (
    0,
    w.fs,
    rw (metadata_calm p (file b r t) w calm there, young) refl,
    inl (
      refl,
      λ x.
          let (b', r', t', e, low) = x in
          absurd (ground (arith, young, low, same_time b b' r r' t t' (sym there ∙ e))),
    ),
  )
]

pub sweep_one_lem : (cutoff : ℕ) (p : FilePath) (w : World) → w.script ≡ [] → SweptOne cutoff p w
sweep_one_lem cutoff p w calm = elim (Option-cases (at p w.fs)) [
  | inl gone ↦ sweep_one-missing cutoff p w calm gone
  | inr (n, there) ↦ sweep_one-there cutoff p w n calm there
]
