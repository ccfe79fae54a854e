-- ===== src/Store/Serials.antt =====
-- The serials of `Store::quarantine` of src/store.rs.
use immure.Prelude.{
  le_cases, ℕ, zero, suc, ◌+◌, ◌≤◌, ◌<◌, ◌≡◌, refl, sym, ◌∙◌, inl, inr, Text, true, none, some, [],
  arith,
}
use mathlib.Core.Path.{subst}
use immure.FilePath.{FilePath, with_file_name}
use immure.Error.{ok, ctx}
use immure.Layout.{quarantine_name, entry_name}
use immure.World.{Node, at, put, erase, has_parent, World}
use immure.World.Calls.{IsTaken, metadata_calm, metadata_missing, rename_calm}
use immure.Store.{Store, Entry}
use immure.Store.Aside.{quarantine_from, quarantine}

-- The path for the serial.
abbrev pub aside_path : Entry → Text → ℕ → FilePath
aside_path e name serial = with_file_name e.path (quarantine_name name serial)

on_taken :
    (e : Entry) (name : Text) (attempts serial : ℕ) (w : World)
    → w.script ≡ []
    → IsTaken (aside_path e name serial) w.fs
    → quarantine_from e name (suc attempts) serial w
      ≡ quarantine_from e name attempts (serial + 1) w
unfolding quarantine_from ctx
on_taken e name attempts serial w calm (n, there) =
    rw (metadata_calm (aside_path e name serial) n w calm there) refl

on_free :
    (e : Entry) (name : Text) (attempts serial : ℕ) (w : World) (n : Node)
    → w.script ≡ []
    → at (aside_path e name serial) w.fs ≡ none
    → at e.path w.fs ≡ some n
    → has_parent (aside_path e name serial) w.fs ≡ true
    → quarantine_from e name (suc attempts) serial w ≡ (
      ok (record e { path = aside_path e name serial }),
      record w { fs = put (aside_path e name serial) n (erase e.path w.fs) },
    )
unfolding quarantine_from ctx
on_free e name attempts serial w n calm free there above =
    rw
      (
        metadata_missing (aside_path e name serial) w calm free,
        rename_calm e.path (aside_path e name serial) n w calm there free above,
      )
      refl

from_serial :
    (e : Entry) (name : Text) (attempts serial last : ℕ) (w : World) (n : Node)
    → w.script ≡ []
    → serial ≤ last
    → last < serial + attempts
    → ((j : ℕ) → serial ≤ j → j < last → IsTaken (aside_path e name j) w.fs)
    → at (aside_path e name last) w.fs ≡ none
    → at e.path w.fs ≡ some n
    → has_parent (aside_path e name last) w.fs ≡ true
    → quarantine_from e name attempts serial w ≡ (
      ok (record e { path = aside_path e name last }),
      record w { fs = put (aside_path e name last) n (erase e.path w.fs) },
    )
from_serial e name zero serial last w n calm low high taken free there above = absurd (omega arith)
from_serial e name (suc attempts) serial last w n calm low high taken free there above =
    elim (le_cases serial last low) [
      | inl same ↦
          subst
            (λ k. quarantine_from e name (suc attempts) k w ≡ (
              ok (record e { path = aside_path e name last }),
              record w { fs = put (aside_path e name last) n (erase e.path w.fs) },
            ))
            (sym same) (on_free e name attempts last w n calm free there above)
      | inr below ↦
          on_taken e name attempts serial w calm (taken serial (omega arith) below)
          ∙ from_serial e name attempts (serial + 1) last w n calm (omega arith) (omega arith)
              (λ j a b. taken j (omega arith) b) free there above
    ]

-- The path that an entry is given with the serial.
abbrev pub aside_of : Store → Entry → ℕ → FilePath
aside_of s e serial = aside_path e (entry_name s.layout e.digest e.form) serial

-- When no call meets a failure, the names of all serials before `last` are taken, the name of
-- `last` is free, `last` is below 100, the entry is there, and so is the directory of its
-- path: `quarantine` renames the entry to the name of the serial `last`, and changes nothing
-- else.
pub quarantine-first_free :
    (s : Store) (e : Entry) (w : World) (n : Node) (last : ℕ)
    → w.script ≡ []
    → last < 100
    → ((j : ℕ) → j < last → IsTaken (aside_of s e j) w.fs)
    → at (aside_of s e last) w.fs ≡ none
    → at e.path w.fs ≡ some n
    → has_parent (aside_of s e last) w.fs ≡ true
    → quarantine s e w ≡ (
      ok (record e { path = aside_of s e last }),
      record w { fs = put (aside_of s e last) n (erase e.path w.fs) },
    )
unfolding quarantine
quarantine-first_free s e w n last calm bound taken free there above =
    from_serial e (entry_name s.layout e.digest e.form) 100 0 last w n calm (omega arith)
      (omega arith) (λ j a b. taken j b) free there above
