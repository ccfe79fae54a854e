-- ===== src/Temp/Creation.antt =====
-- The serials of `TempFile::create_in` of src/temp.rs.
use immure.Prelude.{
  le_cases, ℕ, zero, suc, ◌+◌, ◌≤◌, ◌<◌, ◌≡◌, refl, sym, ◌∙◌, inl, inr, true, false, none, [],
  arith,
}
use mathlib.Core.Path.{subst}
use immure.FilePath.{FilePath, join}
use immure.Error.{Error, Result, ok}
use immure.World.{file, at, put, has_parent, World}
use immure.World.Calls.{IsTaken, create_new_calm, create_new_taken}
use immure.Temp.{temp_name, create_in}

-- The path for the serial, in the process of the world.
abbrev pub temp_path : World → FilePath → ℕ → FilePath
temp_path w folder serial = join folder (temp_name w.pid serial)

-- The counter has moved on to the serial.
abbrev pub counted : World → ℕ → World
counted w serial = record w { serial = serial }

on_taken :
    (tries : ℕ) (folder : FilePath) (w : World)
    → w.script ≡ []
    → IsTaken (temp_path w folder w.serial) w.fs
    → create_in (suc tries) folder w ≡ create_in tries folder (counted w (w.serial + 1))
unfolding create_in
on_taken tries folder w calm there =
    rw
      (create_new_taken (temp_path w folder w.serial) w.clock (counted w (w.serial + 1)) calm there)
      refl

on_free :
    (tries : ℕ) (folder : FilePath) (w : World)
    → w.script ≡ []
    → at (temp_path w folder w.serial) w.fs ≡ none
    → has_parent (temp_path w folder w.serial) w.fs ≡ true
    → create_in (suc tries) folder w ≡ (
      ok (temp_path w folder w.serial),
      record w {
        serial = w.serial + 1;
        fs = put (temp_path w folder w.serial) (file [] false w.clock) w.fs;
      },
    )
unfolding create_in
on_free tries folder w calm free above =
    rw
      (create_new_calm (temp_path w folder w.serial) w.clock (counted w (w.serial + 1)) calm free
        above)
      refl

abbrev pub Makes : World → FilePath → ℕ → Result Error FilePath × World → Type 0
Makes w folder last r = r ≡ (
  ok (temp_path w folder last),
  record w { serial = last + 1; fs = put (temp_path w folder last) (file [] false w.clock) w.fs },
)

-- When no call meets a failure, the names of all serials from the counter up to `last` are
-- taken, the name of `last` is free, its directory is there, and there are tries enough to
-- reach it: `create_in` makes an empty file under the name of `last`, answers with its path,
-- and leaves the counter behind `last`.
pub create_in-first_free :
    (tries : ℕ) (folder : FilePath) (w : World) (last : ℕ)
    → w.script ≡ []
    → w.serial ≤ last
    → last < w.serial + tries
    → ((j : ℕ) → w.serial ≤ j → j < last → IsTaken (temp_path w folder j) w.fs)
    → at (temp_path w folder last) w.fs ≡ none
    → has_parent (temp_path w folder last) w.fs ≡ true
    → Makes w folder last (create_in tries folder w)
create_in-first_free zero folder w last calm low high taken free above = absurd (omega arith)
create_in-first_free (suc tries) folder w last calm low high taken free above =
    elim (le_cases w.serial last low) [
      | inl same ↦
          subst (λ k. Makes w folder k (create_in (suc tries) folder w)) same
            (on_free tries folder w calm
              (subst (λ k. at (temp_path w folder k) w.fs ≡ none) (sym same) free)
              (subst (λ k. has_parent (temp_path w folder k) w.fs ≡ true) (sym same) above))
      | inr below ↦
          on_taken tries folder w calm (taken w.serial (omega arith) below)
          ∙ create_in-first_free tries folder (counted w (w.serial + 1)) last calm (omega arith)
              (omega arith) (λ j a b. taken j (omega arith) b) free above
    ]
