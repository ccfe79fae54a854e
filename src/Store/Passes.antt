-- ===== src/Store/Passes.antt =====
-- src/store.rs: the maintenance passes over a store.
use immure.Prelude.{
  Option, ◌⊎◌, inl, ℕ, ◌+◌, Bool, true, false, not, none, some, List, [], ◌∷◌, ◌++◌, if◌then◌else◌,
}
use immure.FilePath.{FilePath}
use immure.Error.{
  Error, key_required, compression_unavailable, unsealable, damaged, Result, ok, err, ctx,
}
use immure.Exec.{◌>>=◌, ◌>>◌, pure, raise, lift}
use immure.Digest.{Hashes}
use immure.Layout.{Form, raw, zstd, enc, is_compressed, is_encrypted}
use immure.Cipher.{Key}
use immure.Cipher.Opener
use immure.Cipher.Opener.{slice}
use immure.World.{Op, context, read_file}
use immure.Temp.{create_in, replace}
use immure.Store.{Entry, Store, is_some}
use immure.Store.Codec.{Build, unsealed, seal_into}
use immure.Store.Make.{temp_dir}
use immure.Store.Write.{or_drop}
use immure.Store.Walk.{Walk, entries, all, walk_from, completed}
use immure.Store.Convert.{convert}

pub data Step : Type 0 where
  converted already skipped : Step

pub record Failure : Type 0 where
  pub path : FilePath
  pub error : Error
  pub recoverable : Bool

pub record Conversion : Type 0 where
  pub converted_count : ℕ
  pub already_count : ℕ
  pub skipped_count : ℕ
  pub failed : List Failure

abbrev pub no_conversion : Conversion
no_conversion = record { converted_count = 0; already_count = 0; skipped_count = 0; failed = [] }

unfoldable pub is_recoverable : Error → Bool
is_recoverable unsealable = false
is_recoverable damaged = false
is_recoverable _ = true

-- The tally of `Store::pass`, after one entry.
unfoldable pub tally : Conversion → Entry → Result Error Step → Conversion
unfolding is_recoverable
tally c e (ok converted) = record c { converted_count = c.converted_count + 1 }
tally c e (ok already) = record c { already_count = c.already_count + 1 }
tally c e (ok skipped) = record c { skipped_count = c.skipped_count + 1 }
tally c e (err error) = record c {
  failed =
      c.failed ++ record { path = e.path; error = error; recoverable = is_recoverable error } ∷ [];
}

-- What one directory yields, an entry at a time.
unfoldable pub pass : (Entry → Op Step) → Conversion → List (Result Error Entry) → Op Conversion
unfolding tally
pass step c [] w = (ok c, w)
pass step c (err error ∷ more) w = (err error, w)
pass step c (ok e ∷ more) w = let r = step e w in pass step (tally c e r.0) more r.1

abbrev pub carried_on : Result Error Conversion → Result Error (Conversion ⊎ Unit {0})
carried_on (ok c) = ok (inl c)
carried_on (err e) = err e

-- `Store::pass` over the walk. `none` is a walk that was not over after so many directories.
unfoldable pub walk_pass : Store → Walk → ℕ → (Entry → Op Step) → Op (Option Conversion)
unfolding walk_from pass
walk_pass s walk rounds step = do
  over ←
      walk_from s walk
        (λ c ready w. (let done = pass step c ready w in (carried_on done.0, done.1))) rounds
        no_conversion
  pure (completed over)

abbrev pub compress_plan : Form → Step
compress_plan f = if is_encrypted f then skipped else if is_compressed f then already else converted

abbrev pub decompress_plan : Form → Step
decompress_plan f =
    if is_encrypted f then skipped else if is_compressed f then converted else already

abbrev pub encrypt_plan : Form → Step
encrypt_plan f = if is_encrypted f then already else converted

abbrev pub decrypt_plan : Form → Step
decrypt_plan f = if is_encrypted f then converted else if is_compressed f then already else skipped

module _ {S : Type 0} (h : Hashes S) (b : Build) where
  abbrev planned : Store → Form → Entry → Step → Op Step
  planned s target e converted = do convert h b s e e.form target; pure converted
  planned s target e already = pure already
  planned s target e skipped = pure skipped

  unfoldable pub convert_all : Store → Form → (Form → Step) → Op (Option Conversion)
  unfolding walk_pass convert
  convert_all s target plan = walk_pass s entries b.rounds (λ e. planned s target e (plan e.form))

  unfoldable pub compress_all : Store → Op (Option Conversion)
  unfolding convert_all
  compress_all s =
      if not b.features.zstd
      then raise compression_unavailable
      else convert_all s zstd compress_plan

  unfoldable pub decompress_all : Store → Op (Option Conversion)
  unfolding convert_all
  decompress_all s =
      if not b.features.zstd
      then raise compression_unavailable
      else convert_all s raw decompress_plan

  unfoldable pub encrypt_all : Store → Op (Option Conversion)
  unfolding convert_all
  encrypt_all s =
      if not (is_some s.key)
      then raise (key_required s.layout.root)
      else convert_all s enc encrypt_plan

  unfoldable pub decrypt_all : Store → Op (Option Conversion)
  unfolding convert_all
  decrypt_all s =
      if not (is_some s.key)
      then raise (key_required s.layout.root)
      else convert_all s zstd decrypt_plan

module _ (b : Build) where
  abbrev probed : Result Error (List ℕ) → Result Error Bool
  probed (ok bytes) = ok true
  probed (err unsealable) = ok false
  probed (err e) = err e

  unfoldable pub opens_with : FilePath → Key → Op Bool
  unfolding read_file
  opens_with p key = do
    bytes ← context (read_file p)
    lift (probed (ctx (Opener.read b.aead 1 (Opener.opener key (slice bytes))).0))

  -- `Store::reseal` for an entry that is not under the new key yet.
  unfoldable pub resealed : Store → Entry → Key → Key → Op Bool
  unfolding read_file unsealed temp_dir create_in seal_into replace
  resealed s e old new = do
    bytes ← context (read_file e.path)
    folder ← temp_dir s
    temp ← create_in b.tries folder
    or_drop temp (seal_into b (ctx (unsealed b old bytes)) temp new false)
    replace temp e.path
    pure true

  unfoldable pub reseal : Store → Entry → Key → Key → Op Bool
  unfolding opens_with resealed
  reseal s e old new = do
    there ← opens_with e.path new
    if there then pure false else resealed s e old new

  abbrev rekeyed : Store → Key → Key → Entry → Op Step
  rekeyed s old new e =
      if not (is_encrypted e.form)
      then pure skipped
      else (do moved ← reseal s e old new; pure (if moved then converted else already))

  unfoldable pub change_key : Store → Key → Op (Option Conversion)
  unfolding walk_pass reseal
  change_key s new = elim s.key [
    | none ↦ raise (key_required s.layout.root)
    | some old ↦ walk_pass s all b.rounds (rekeyed s old new)
  ]
