-- ===== src/Store/Write.antt =====
-- src/store.rs: the way of new content into the store.
use immure.Prelude.{ℕ, Bool, true, Option, none, some, List, if◌then◌else◌}
use immure.FilePath.{FilePath, join}
use immure.Error.{Error, obstructed, Result, ok, err}
use immure.Exec.{◌>>=◌, ◌>>◌, pure, raise, lift, modify}
use immure.Digest.Types.{Digest}
use immure.Digest.{Hashes, hash}
use immure.Layout.{Form, shard, entry_name}
use immure.World.{World, Op}
use immure.Temp
use immure.Temp.{create_in, persist}
use immure.Store.{Entry, Status, fresh, exists, Store, form, locate}
use immure.Store.Codec.{Build, encode}
use immure.Store.Check.{content_matches}
use immure.Store.Make.{or_root_gone, make_dir, temp_dir}

abbrev pub kept : {A : Type 0} → FilePath → Result Error A → World → World
kept temp (ok a) w = w
kept temp (err e) w = Temp.discard temp w

-- An early return drops the temporary file, which removes it.
abbrev pub or_drop : {A : Type 0} → FilePath → Op A → Op A
or_drop temp m w = let r = m w in (r.0, kept temp r.0 r.1)

module _ {S : Type 0} (h : Hashes S) (b : Build) where
  abbrev pub answered : Store → FilePath → Digest → Bool → Op FilePath
  answered s path d placed = do
    same ← if placed then pure true else content_matches h b s path d
    if same then pure path else raise (obstructed path)

  unfoldable pub place : Store → FilePath → Digest → Op FilePath
  unfolding shard make_dir form persist content_matches
  place s temp d = do
    folder ← or_drop temp (do folder ← lift (shard s.layout d); make_dir s folder; pure folder)
    let path = join folder (entry_name s.layout d (form s))
    placed ← or_root_gone s (persist temp path)
    answered s path d placed

  unfoldable pub new_temp : Store → Op FilePath
  unfolding temp_dir create_in
  new_temp s = do folder ← temp_dir s; or_root_gone s (create_in b.tries folder)

  unfoldable pub write : Store → Digest → List ℕ → Op FilePath
  unfolding new_temp encode form place
  write s d bytes = do
    temp ← new_temp s
    or_drop temp (encode b s (ok bytes) temp (form s))
    place s temp d

  abbrev pub added : Store → Digest → Op FilePath → Option (FilePath × Form) → Op (Status × Entry)
  added s d store (some (p, f)) = pure (exists, record { digest = d; path = p; form = f })
  added s d store none = do
    path ← store
    pure (fresh, record { digest = d; path = path; form = form s })

  unfoldable pub add : Store → List ℕ → Op (Status × Entry)
  unfolding locate write
  add s bytes = do
    let d = hash h s.algorithm bytes
    there ← locate s d
    added s d (write s d bytes) there

  abbrev hashed : Store → Result Error (List ℕ) → Result Error Digest
  hashed s (ok bytes) = ok (hash h s.algorithm bytes)
  hashed s (err e) = err e

  -- What was written is dropped when the content is already there.
  abbrev stored : Store → FilePath → Digest → Option (FilePath × Form) → Op (Status × Entry)
  stored s temp d (some (p, f)) = do
    modify (Temp.discard temp)
    pure (exists, record { digest = d; path = p; form = f })
  stored s temp d none = added s d (place s temp d) none

  -- `Store::add_reader`, `source` being what reading the source to its end gives.
  unfoldable pub add_reader : Store → Result Error (List ℕ) → Op (Status × Entry)
  unfolding new_temp encode locate place
  add_reader s source = do
    temp ← new_temp s
    d ← or_drop temp (do encode b s source temp (form s); lift (hashed s source))
    there ← or_drop temp (locate s d)
    stored s temp d there
