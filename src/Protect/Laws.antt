-- ===== src/Protect/Laws.antt =====
-- The laws of src/protect.rs.
use immure.Prelude.{
  inl, inr, if◌then◌else◌, ℕ, ◌≡◌, refl, ◌≤◌, ◌⊎◌, Bool, true, false, some, List, [], ◌∷◌, ◌∙◌,
  arith,
}
use immure.FilePath.{FilePath}
use immure.Error.{ok, err, os, permission_denied}
use immure.World.{
  file, World, at, put, erase, remove, sys, meet, Happening, fails, metadata, set_read_only,
}
use immure.World.Dirs.{put-other}
use immure.World.{Fs}
use immure.World.Calls.{metadata_calm, set_read_only_calm, remove_calm, at-put_self}
use immure.Protect.{
  unknown, holds, ignored, drop_write_bits, is_read_only, settle, apply, remove_file, unprotect,
}

pub apply-settled : (p : FilePath) (w : World) → w.protection ≡ ignored → apply p w ≡ w
unfolding apply
apply-settled p w e = rw e refl

-- Whatever the calls meet, from any of the three states, the protection is settled after it
-- was applied once: it holds or it is ignored.
pub apply-IsSettled :
    (p : FilePath) (w : World)
    → w.protection ≤ ignored
    → ((apply p w).protection ≡ holds ⊎ (apply p w).protection ≡ ignored)
unfolding apply
apply-IsSettled p w b = ground arith

drop_write_bits_calm :
    (p : FilePath) (w : World) (b : List ℕ) (r : Bool) (t : ℕ)
    → w.script ≡ []
    → at p w.fs ≡ some (file b r t)
    → drop_write_bits p w ≡ (true, record w { fs = put p (file b true t) w.fs })
unfolding drop_write_bits
drop_write_bits_calm p w b r t calm there =
    simp (metadata_calm p (file b r t) w calm there, set_read_only_calm p true b r t w calm there)

is_read_only_calm :
    (p : FilePath) (w : World) (b : List ℕ) (r : Bool) (t : ℕ)
    → w.script ≡ []
    → at p w.fs ≡ some (file b r t)
    → is_read_only p w ≡ (r, w)
unfolding is_read_only
is_read_only_calm p w b r t calm there = simp (metadata_calm p (file b r t) w calm there)

first_settles : (p : FilePath) (w : World) → w.protection ≡ unknown → apply p w ≡ settle p w
unfolding apply
first_settles p w new = ground arith

-- On a file that is there, when no call meets a failure and nothing was tried before: applying
-- the protection makes the file read-only, leaves its bytes and all other files alone, and
-- settles that the protection holds.
pub apply-protects :
    (p : FilePath) (w : World) (b : List ℕ) (r : Bool) (t : ℕ)
    → w.script ≡ []
    → at p w.fs ≡ some (file b r t)
    → w.protection ≡ unknown
    → apply p w ≡ record w { fs = put p (file b true t) w.fs; protection = holds }
apply-protects p w b r t calm there new =
    first_settles p w new
    ∙ simp (
      drop_write_bits_calm p w b r t calm there,
      is_read_only_calm p (record w { fs = put p (file b true t) w.fs }) b true t calm
          (at-put_self p (file b true t) w.fs),
    )

unprotect_calm :
    (p : FilePath) (w : World) (b : List ℕ) (r : Bool) (t : ℕ)
    → w.script ≡ []
    → at p w.fs ≡ some (file b r t)
    → unprotect p w ≡ record w { fs = put p (file b false t) w.fs }
unfolding unprotect
unprotect_calm p w b r t calm there =
    simp (metadata_calm p (file b r t) w calm there, set_read_only_calm p false b r t w calm there)

refused_once :
    (p : FilePath) (w : World) (rest : List Happening)
    → w.script ≡ fails (os permission_denied []) ∷ rest
    → remove p w ≡ (err (os permission_denied []), record w { script = rest })
unfolding remove sys meet
refused_once p w rest refused = rw refused refl

-- The two calls of `unprotect` meet no failure; what comes after them is not read.
unprotect_lifts :
    (p : FilePath) (w : World) (rest : List Happening) (b : List ℕ) (r : Bool) (t : ℕ)
    → w.script ≡ Happening.calm ∷ Happening.calm ∷ rest
    → at p w.fs ≡ some (file b r t)
    → unprotect p w ≡ record w { script = rest; fs = put p (file b false t) w.fs }
unfolding unprotect metadata set_read_only sys meet
unprotect_lifts p w rest b r t quiet there = rw (quiet, there) (rw there refl)

-- When the first removal of a file that is there is refused with `PermissionDenied` and the
-- next two calls meet no failure, `remove_file` makes the file writable with its bytes and its
-- time unchanged, and then asks for the removal a second time: whatever that removal meets,
-- its answer and its effect are those of `remove_file`.
pub remove_file-refused :
    (p : FilePath) (w : World) (rest : List Happening) (b : List ℕ) (r : Bool) (t : ℕ)
    → w.script ≡ fails (os permission_denied []) ∷ Happening.calm ∷ Happening.calm ∷ rest
    → at p w.fs ≡ some (file b r t)
    → remove_file p w ≡ remove p (record w { script = rest; fs = put p (file b false t) w.fs })
unfolding remove_file
remove_file-refused p w rest b r t refused there = simp (
  refused_once p w (Happening.calm ∷ Happening.calm ∷ rest) refused,
  unprotect_lifts p (record w { script = Happening.calm ∷ Happening.calm ∷ rest }) rest b r t refl
      there,
)

three_states : (k : ℕ) → k ≤ ignored → (k ≡ unknown) ⊎ ((k ≡ holds) ⊎ (k ≡ ignored))
three_states k h = omega arith

later_settles :
    (p : FilePath) (w : World)
    → w.protection ≡ holds
    → apply p w ≡ (
        if (drop_write_bits p w).0
        then (drop_write_bits p w).1
        else record (drop_write_bits p w).1 { protection = ignored })
unfolding apply
later_settles p w held = ground arith

later_protects :
    (p : FilePath) (w : World) (b : List ℕ) (r : Bool) (t : ℕ)
    → w.script ≡ []
    → at p w.fs ≡ some (file b r t)
    → w.protection ≡ holds
    → apply p w ≡ record w { fs = put p (file b true t) w.fs }
later_protects p w b r t calm there held =
    later_settles p w held ∙ simp (drop_write_bits_calm p w b r t calm there)

-- The protection of a file where no call meets a failure: only its read-only flag may change.
pub record IsProtected (p : FilePath) (b : List ℕ) (t : ℕ) (before after : World) : Type 0 where
  pub flag : Bool
  pub state : ℕ
  pub files : Fs
  pub result : after ≡ record before { fs = files; protection = state }
  pub settled : state ≤ ignored
  pub there : at p files ≡ some (file b flag t)
  pub others : (q : FilePath) → (p ≡ q → ⊥) → at q files ≡ at q before.fs

pub apply-IsProtected :
    (p : FilePath) (w : World) (b : List ℕ) (r : Bool) (t : ℕ)
    → w.script ≡ []
    → at p w.fs ≡ some (file b r t)
    → w.protection ≤ ignored
    → IsProtected p b t w (apply p w)
apply-IsProtected p w b r t calm there bound = elim (three_states w.protection bound) [
  | inl new ↦ record {
    flag = true;
    state = holds;
    files = put p (file b true t) w.fs;
    result = apply-protects p w b r t calm there new;
    settled = omega arith;
    there = at-put_self p (file b true t) w.fs;
    others = λ q away. put-other p q (file b true t) w.fs away;
  }
  | inr (inl held) ↦ record {
    flag = true;
    state = w.protection;
    files = put p (file b true t) w.fs;
    result = later_protects p w b r t calm there held;
    settled = bound;
    there = at-put_self p (file b true t) w.fs;
    others = λ q away. put-other p q (file b true t) w.fs away;
  }
  | inr (inr given_up) ↦ record {
    flag = r;
    state = w.protection;
    files = w.fs;
    result = apply-settled p w given_up;
    settled = bound;
    there = there;
    others = λ q away. refl;
  }
]

pub remove_file_calm :
    (p : FilePath) (b : List ℕ) (r : Bool) (t : ℕ) (w : World)
    → w.script ≡ []
    → at p w.fs ≡ some (file b r t)
    → remove_file p w ≡ (ok tt, record w { fs = erase p w.fs })
unfolding remove_file
remove_file_calm p b r t w calm there = simp (remove_calm p b r t w calm there)
