-- ===== src/Temp/Moves.antt =====
-- The rename of `TempFile::persist` of src/temp.rs, where no call meets a failure.
use immure.Prelude.{
  ℕ, ◌≡◌, refl, sym, ap, ◌∙◌, Bool, true, false, none, some, List, [], ◌∷◌, if◌then◌else◌,
  Option-cases, inl, inr, arith,
}
use immure.FilePath.{FilePath, path_eq_iff, parent}
use immure.Error.{ok, ctx}
use immure.World.{
  Node, file, Fs, at, put, erase, has_parent, found, World, metadata, sync, sys, meet,
}
use immure.World.Calls.{at-put, at-put_self, metadata_calm, metadata_missing, rename_calm}
use immure.Protect.{unknown, holds}
use immure.Protect.Laws.{apply-protects}
use immure.Temp.{attempt, rename_to, persist}

free-put :
    (p q : FilePath) (n m : Node) (fs : Fs)
    → at p fs ≡ some m
    → at q fs ≡ none
    → at q (put p n fs) ≡ none
free-put p q n m fs there free = ground (arith, at-put p q n fs, path_eq_iff p q)

has_parent-put :
    (p q : FilePath) (n : Node) (b : List ℕ) (r : Bool) (t : ℕ) (fs : Fs)
    → at p fs ≡ some (file b r t)
    → has_parent q fs ≡ true
    → has_parent q (put p n fs) ≡ true
has_parent-put p [] n b r t fs there above = refl
has_parent-put p (c ∷ []) n b r t fs there above = refl
has_parent-put p (c ∷ d ∷ q) n b r t fs there above =
    ground (arith, at-put p (c ∷ parent (d ∷ q)) n fs, path_eq_iff p (c ∷ parent (d ∷ q)))

pub sync_calm : (w : World) → w.script ≡ [] → sync w ≡ (ok tt, w)
unfolding sync sys meet
sync_calm w calm = rw calm refl

pub metadata_any :
    (p : FilePath) (w : World) → w.script ≡ [] → metadata p w ≡ ((found (at p w.fs) w.fs).0, w)
metadata_any p w calm = elim (Option-cases (at p w.fs)) [
  | inl e ↦ metadata_missing p w calm e ∙ ap (λ o. ((found o w.fs).0, w)) (sym e)
  | inr (n, e) ↦ metadata_calm p n w calm e ∙ ap (λ o. ((found o w.fs).0, w)) (sym e)
]

pub if_same : {A : Type 0} (b : Bool) (x : A) → (if b then x else x) ≡ x
if_same true x = refl
if_same false x = refl

abbrev pub protected : World → FilePath → List ℕ → ℕ → World
protected w path b t = record w { fs = put path (file b true t) w.fs; protection = holds }

abbrev pub published : World → FilePath → FilePath → List ℕ → ℕ → World
published w path dest b t = record w {
  fs = put dest (file b true t) (erase path (put path (file b true t) w.fs));
  protection = holds;
}

attempt_calm :
    (path dest : FilePath) (w : World) (b : List ℕ) (r : Bool) (t : ℕ)
    → w.script ≡ []
    → at path w.fs ≡ some (file b r t)
    → at dest w.fs ≡ none
    → has_parent dest w.fs ≡ true
    → w.protection ≡ unknown
    → attempt path dest true w ≡ (ok true, published w path dest b t)
unfolding attempt ctx
attempt_calm path dest w b r t calm there free above new = simp (
  sync_calm w calm,
  apply-protects path w b r t calm there new,
  metadata_missing dest (protected w path b t) calm
      (free-put path dest (file b true t) (file b r t) w.fs there free),
  rename_calm path dest (file b true t) (protected w path b t) calm
      (at-put_self path (file b true t) w.fs)
      (free-put path dest (file b true t) (file b r t) w.fs there free)
      (has_parent-put path dest (file b true t) b r t w.fs there above),
  metadata_any (parent dest) (published w path dest b t) calm,
  sync_calm (published w path dest b t) calm,
  if_same,
)

-- When no call meets a failure, the temporary file is there, its destination is free and the
-- destination's directory is there, and the protection was not tried before: `persist` answers
-- that the file was moved, and the destination then has its bytes and is read-only, the
-- temporary name is gone, nothing else has changed in the file system, and the protection is
-- settled as holding.
pub persist-published :
    (path dest : FilePath) (w : World) (b : List ℕ) (r : Bool) (t : ℕ)
    → w.script ≡ []
    → at path w.fs ≡ some (file b r t)
    → at dest w.fs ≡ none
    → has_parent dest w.fs ≡ true
    → w.protection ≡ unknown
    → persist path dest w ≡ (ok true, published w path dest b t)
unfolding persist rename_to
persist-published path dest w b r t calm there free above new =
    simp (attempt_calm path dest w b r t calm there free above new)
