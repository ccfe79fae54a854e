-- ===== src/Store/Prove.antt =====
-- src/store.rs: settling whether the store's key opens anything here.
use immure.Prelude.{
  ℕ, Bool, true, false, not, ◌||◌, ◌⊎◌, inl, inr, Option, none, some, List, [], ◌∷◌, if◌then◌else◌,
}
use immure.Error.{IoError, Error, key_required, Result, ok, err}
use immure.Exec.{◌>>=◌, pure, raise, gets}
use immure.Digest.{Hashes}
use immure.Layout.{is_encrypted}
use immure.World.{Op}
use immure.Protect.{succeeded}
use immure.Store.{Entry, Store, is_some}
use immure.Store.Codec.{Build}
use immure.Store.Check.{reader_at}
use immure.Store.Walk.{entries, walk_from}

-- A probe of a reader, one byte of which is asked for: it gives the byte, or the key has opened a
-- chunk by now.
abbrev pub answers : Result Error (Result IoError (List ℕ)) → Bool → Bool
answers (ok content) proven = succeeded content || proven
answers (err e) proven = false

module _ {S : Type 0} (h : Hashes S) (b : Build) where
  unfoldable pub probe : Store → Entry → Op Bool
  unfolding reader_at
  probe s e w =
      let opened = reader_at h b s e.path w in (ok (answers opened.0 opened.1.key_proven), opened.1)

  unfoldable pub prove_entries : Store → List (Result Error Entry) → Op Bool
  unfolding probe
  prove_entries s [] = pure false
  prove_entries s (err e ∷ more) = raise e
  prove_entries s (ok e ∷ more) =
      if not (is_encrypted e.form)
      then prove_entries s more
      else (do proved ← probe s e; if proved then pure true else prove_entries s more)

  abbrev on_batch : Unit {0} → List (Result Error Entry) → Store → Op (Unit {0} ⊎ Unit {0})
  on_batch u ready s = do proved ← prove_entries s ready; pure (if proved then inr tt else inl tt)

  abbrev proved_by : Option (Unit {0} ⊎ Unit {0}) → Option Bool
  proved_by none = none
  proved_by (some (inl u)) = some false
  proved_by (some (inr u)) = some true

  -- `none` is a walk that was not over after so many directories.
  unfoldable pub prove_key : Store → Op (Option Bool)
  unfolding walk_from prove_entries
  prove_key s = do
    proven ← gets (λ w. w.key_proven)
    if not (is_some s.key)
        then raise (key_required s.layout.root)
        else (if proven then pure (some true) else (do
          over ← walk_from s entries (λ u ready. on_batch u ready s) b.rounds tt
          pure (proved_by over)))
