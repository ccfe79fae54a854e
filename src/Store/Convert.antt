-- ===== src/Store/Convert.antt =====
-- src/store.rs: rewriting one entry into another form.
use immure.Prelude.{ℕ, not, ◌&&◌, none, some, List, if◌then◌else◌}
use immure.FilePath.{FilePath, join}
use immure.Error.{
  IoError, Error, key_required, encryption_unavailable, obstructed, Result, ok, err, ctx,
}
use immure.Exec.{◌>>=◌, ◌>>◌, pure, raise, lift}
use immure.Digest.Types.{Digest}
use immure.Digest.{Hashes}
use immure.Layout.{Form, shard, entry_name, is_compressed, is_encrypted}
use immure.World.{Op, context, read_file, write_file}
use immure.Protect.{remove_file}
use immure.Temp.{is_file, create_in, persist}
use immure.Store.{Entry, Store}
use immure.Store.Codec.{Build, copy, reader, unsealed, seal_into}
use immure.Store.Check.{digest_of, same_digest}
use immure.Store.Make.{temp_dir}
use immure.Store.Write.{or_drop}

module _ {S : Type 0} (h : Hashes S) (b : Build) where
  -- `Store::payload`, read to its end.
  unfoldable pub payload : Store → FilePath → Form → Op (Result IoError (List ℕ))
  unfolding read_file unsealed
  payload s p f = do
    bytes ← context (read_file p)
    if is_encrypted f
        then (if b.features.crypt
            then elim s.key [
              | none ↦ raise (key_required p)
              | some key ↦ pure (unsealed b key bytes)
            ]
            else raise encryption_unavailable)
        else pure (ok bytes)

  -- `Store::repack`
  unfoldable pub repack : Store → Result IoError (List ℕ) → FilePath → Form → Form → Op (Unit {0})
  unfolding reader copy write_file seal_into
  repack s content temp from target = do
    source ← lift (reader b content (is_compressed from && not (is_compressed target)))
    let compress_now = not (is_compressed from) && is_compressed target
    if is_encrypted target
        then (if b.features.crypt
            then elim s.key [
              | none ↦ raise (key_required temp)
              | some key ↦ seal_into b (ctx source) temp key compress_now
            ]
            else raise encryption_unavailable)
        else (do bytes ← lift (copy b (ctx source) compress_now); context (write_file temp bytes))

  abbrev accounted : Digest → FilePath → FilePath → Result Error Digest → Op (Unit {0})
  accounted d source target (ok actual) =
      if same_digest actual d then context (remove_file source) else raise (obstructed target)
  accounted d source target (err e) = raise (obstructed target)

  abbrev checked : {A : Type 0} → Op A → Op (Result Error A)
  checked m w = let r = m w in (ok r.0, r.1)

  unfoldable pub rewrite : Store → Entry → Form → Form → FilePath → Op (Unit {0})
  unfolding payload temp_dir create_in repack persist remove_file
  rewrite s e from target place = do
    content ← payload s e.path from
    folder ← temp_dir s
    temp ← create_in b.tries folder
    or_drop temp (repack s content temp from target)
    moved ← persist temp place
    context (remove_file e.path)

  unfoldable pub convert : Store → Entry → Form → Form → Op (Unit {0})
  unfolding shard entry_name is_file digest_of rewrite remove_file
  convert s e from target = do
    folder ← lift (shard s.layout e.digest)
    let place = join folder (entry_name s.layout e.digest target)
    there ← is_file place
    if there
        then (do actual ← checked (digest_of h b s place); accounted e.digest e.path place actual)
        else rewrite s e from target place
