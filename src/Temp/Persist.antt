-- ===== src/Temp/Persist.antt =====
-- `TempFile::persist` of src/temp.rs where no call meets a failure, whatever is known of the
-- protection.
use immure.Prelude.{
  ℕ, ◌≡◌, ◌≤◌, refl, sym, ◌∙◌, Bool, true, some, none, List, [], ◌∷◌, Bool-cases, inl, inr, arith,
}
use immure.FilePath.{FilePath, parent, path_eq, path_eq_iff}
use immure.Error.{ok, ctx}
use immure.World.{Node, file, Fs, at, put, erase, has_parent, World}
use immure.World.Calls.{at-put_self, at-erase, at-erase_self, metadata_missing, rename_calm}
use immure.World.Dirs.{put-other}
use immure.Protect.{ignored, apply}
use immure.Protect.Laws.{apply-IsProtected}
use immure.Temp.{attempt, rename_to, persist}
use immure.Temp.Moves.{sync_calm, metadata_any, if_same}

pub erase-other : (p q : FilePath) (fs : Fs) → (p ≡ q → ⊥) → at q (erase p fs) ≡ at q fs
erase-other p q fs away = elim (Bool-cases (path_eq p q)) [
  | inl same ↦ absurd (away ((path_eq_iff p q).0 same))
  | inr differ ↦ ground (arith, at-erase p q fs)
]

-- A file and a directory, or nothing, do not lie under one path.
pub file_there :
    (p q : FilePath) (n : Node) (fs : Fs) → at p fs ≡ some n → at q fs ≡ none → p ≡ q → ⊥
file_there p q n fs there free e = cc

has_parent-others :
    (p q : FilePath) (b : List ℕ) (r : Bool) (t : ℕ) (before after : Fs)
    → at p before ≡ some (file b r t)
    → ((q : FilePath) → (p ≡ q → ⊥) → at q after ≡ at q before)
    → has_parent q before ≡ true
    → has_parent q after ≡ true
has_parent-others p [] b r t before after there same above = refl
has_parent-others p (c ∷ []) b r t before after there same above = refl
has_parent-others p (c ∷ d ∷ q) b r t before after there same above =
    let above_it = c ∷ parent (d ∷ q) in
    rw (same above_it (λ e. ground (arith, there, above, e))) above

-- The steps of `attempt` after the protection.
attempt_from :
    (path dest : FilePath) (w w' : World) (n : Node)
    → w.script ≡ []
    → apply path w ≡ w'
    → w'.script ≡ []
    → at path w'.fs ≡ some n
    → at dest w'.fs ≡ none
    → has_parent dest w'.fs ≡ true
    → attempt path dest true w ≡ (ok true, record w' { fs = put dest n (erase path w'.fs) })
unfolding attempt ctx
attempt_from path dest w w' n calm applied calm' there free above = simp (
  sync_calm w calm,
  applied,
  metadata_missing dest w' calm' free,
  rename_calm path dest n w' calm' there free above,
  metadata_any (parent dest) (record w' { fs = put dest n (erase path w'.fs) }) calm',
  sync_calm (record w' { fs = put dest n (erase path w'.fs) }) calm',
  if_same,
)

-- What a persisted file has become.
pub record IsPersisted (path dest : FilePath) (b : List ℕ) (t : ℕ) (before after : World)
    : Type 0 where
  pub flag : Bool
  pub state : ℕ
  pub files : Fs
  pub result : after ≡ record before { fs = files; protection = state }
  pub settled : state ≤ ignored
  pub there : at dest files ≡ some (file b flag t)
  pub gone : at path files ≡ none
  pub others : (q : FilePath) → (path ≡ q → ⊥) → (dest ≡ q → ⊥) → at q files ≡ at q before.fs

persist_from :
    (path dest : FilePath) (w after : World)
    → attempt path dest true w ≡ (ok true, after)
    → persist path dest w ≡ (ok true, after)
unfolding persist rename_to
persist_from path dest w after done = simp (done)

pub persist-IsPersisted :
    (path dest : FilePath) (w : World) (b : List ℕ) (r : Bool) (t : ℕ)
    → w.script ≡ []
    → at path w.fs ≡ some (file b r t)
    → at dest w.fs ≡ none
    → has_parent dest w.fs ≡ true
    → w.protection ≤ ignored
    → (after : World) × (persist path dest w ≡ (ok true, after)) × IsPersisted path dest b t w after
persist-IsPersisted path dest w b r t calm there free above bound =
    let p = apply-IsProtected path w b r t calm there bound in
    let w' : World = record w { fs = p.files; protection = p.state } in
    let n = file b p.flag t in
    let differ : path ≡ dest → ⊥ = λ e. file_there path dest (file b r t) w.fs there free e in
    let free' : at dest p.files ≡ none = p.others dest differ ∙ free in
    let above' = has_parent-others path dest b r t w.fs p.files there p.others above in
    let after : World = record w' { fs = put dest n (erase path p.files) } in
    (
      after,
      persist_from path dest w after
          (attempt_from path dest w w' n calm p.result calm p.there free' above'),
      record {
        flag = p.flag;
        state = p.state;
        files = put dest n (erase path p.files);
        result = refl;
        settled = p.settled;
        there = at-put_self dest n (erase path p.files);
        gone =
            put-other dest path n (erase path p.files) (λ e. differ (sym e))
            ∙ at-erase_self path p.files;
        others = λ q away_path away_dest.
            put-other dest q n (erase path p.files) away_dest
            ∙ (erase-other path q p.files away_path ∙ p.others q away_path);
      },
    )
