-- ===== src/Store/Aside.antt =====
-- src/store.rs: taking an entry's name away, giving it back, and letting files go.
use immure.Prelude.{ℕ, zero, suc, ◌+◌, Text, Bool, true, false, Option, none, some, if◌then◌else◌}
use immure.FilePath.{FilePath, with_file_name}
use immure.Error.{obstructed, quarantine_names_taken}
use immure.Exec.{◌>>=◌, ◌>>◌, pure, raise, lift}
use immure.Digest.Types.{Digest}
use immure.Digest.{Hashes}
use immure.Layout.{entry_name, quarantine_name}
use immure.World.{Op, context, metadata, rename}
use immure.Protect.{succeeded, remove_file}
use immure.Temp.{answer_of}
use immure.Store.{Entry, Store, own_digest, find}
use immure.Store.Codec.{Build}
use immure.Store.Check.{content_matches}

abbrev pub quarantine_attempts : ℕ
quarantine_attempts = 100

abbrev pub moved : Entry → FilePath → Entry
moved e target = record e { path = target }

-- The names from `serial` on, as many as `attempts`.
unfoldable pub quarantine_from : Entry → Text → ℕ → ℕ → Op Entry
unfolding metadata rename quarantine_name
quarantine_from e name zero serial = raise (quarantine_names_taken e.path)
quarantine_from e name (suc attempts) serial = do
  let target = with_file_name e.path (quarantine_name name serial)
  answer ← answer_of (metadata target)
  if succeeded answer
      then quarantine_from e name attempts (serial + 1)
      else (do context (rename e.path target); pure (moved e target))

unfoldable pub quarantine : Store → Entry → Op Entry
unfolding entry_name quarantine_from
quarantine s e = quarantine_from e (entry_name s.layout e.digest e.form) quarantine_attempts 0

unfoldable pub discard : Entry → Op (Unit {0})
unfolding remove_file
discard aside = context (remove_file aside.path)

abbrev removed : Option FilePath → Op Bool
removed none = pure false
removed (some p) = do context (remove_file p); pure true

unfoldable pub remove : Store → Digest → Op Bool
unfolding find remove_file
remove s d = do there ← find s d; removed there

module _ {S : Type 0} (h : Hashes S) (b : Build) where
  abbrev pub given_back : Entry → FilePath → Bool → Op (Option Entry)
  given_back aside target taken =
      if taken
      then raise (obstructed target)
      else (do context (rename aside.path target); pure (some (moved aside target)))

  unfoldable pub restore : Store → Entry → Op (Option Entry)
  unfolding own_digest content_matches entry_name metadata rename
  restore s aside = do
    lift (own_digest s aside.digest)
    same ← content_matches h b s aside.path aside.digest
    let target = with_file_name aside.path (entry_name s.layout aside.digest aside.form)
    if same
        then (do answer ← answer_of (metadata target); given_back aside target (succeeded answer))
        else pure none
