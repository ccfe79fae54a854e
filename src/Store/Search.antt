-- ===== src/Store/Search.antt =====
-- The look-ups of src/store.rs, held against the files that are there, and the tally of a pass.
use immure.Prelude.{
  ℕ, ◌+◌, ◌≡◌, refl, ap, sym, Option, none, some, List, [], ◌∷◌, length, length-append, suc, map,
  Option-cases, inl, inr, arith, ◌∙◌,
}
use mathlib.Core.Path.{subst}
use immure.FilePath.{FilePath}
use immure.Error.{Error, Result, ok, err}
use immure.Digest.Types.{Digest}
use immure.Layout.{Form, as_u8}
use immure.World.{Node, file, dir, special, Fs, at, World}
use immure.World.Calls.{metadata_calm, metadata_missing}
use immure.Store.{Store, Entry, candidates, locate, locate_in, looked, learn}
use immure.Store.Passes.{Conversion, Step, converted, already, skipped, pass, tally, is_recoverable}

abbrev chosen : FilePath → Form → Option (FilePath × Form) → Option Node → Option (FilePath × Form)
chosen p f more none = more
chosen p f more (some (file b r t)) = some (p, f)
chosen p f more (some dir) = more
chosen p f more (some special) = more

-- The first of the names under which there is a file.
unfoldable pub first_file : Fs → List (FilePath × Form) → Option (FilePath × Form)
first_file fs [] = none
first_file fs ((p, f) ∷ more) = chosen p f (first_file fs more) (at p fs)

abbrev pub remembered : World → Option (FilePath × Form) → World
remembered w none = w
remembered w (some (p, f)) = record w { first_form = as_u8 f }

skip_missing :
    (p : FilePath) (f : Form) (more : List (FilePath × Form)) (w : World)
    → w.script ≡ []
    → at p w.fs ≡ none
    → locate_in ((p, f) ∷ more) w ≡ locate_in more w
unfolding locate_in
skip_missing p f more w calm e = rw (metadata_missing p w calm e) refl

answer_found :
    (p : FilePath) (f : Form) (more : List (FilePath × Form)) (w : World) (n : Node)
    → w.script ≡ []
    → at p w.fs ≡ some n
    → locate_in ((p, f) ∷ more) w ≡ looked p f (locate_in more) (ok n) w
unfolding locate_in
answer_found p f more w n calm e = rw (metadata_calm p n w calm e) refl

first_found :
    (fs : Fs) (p : FilePath) (f : Form) (more : List (FilePath × Form)) (o : Option Node)
    → at p fs ≡ o
    → chosen p f (first_file fs more) o ≡ first_file fs ((p, f) ∷ more)
unfolding first_file
first_found fs p f more o e = ap (chosen p f (first_file fs more)) (sym e)

abbrev Finds :
    World → Option (FilePath × Form) → Result Error (Option (FilePath × Form)) × World → Type 0
Finds w found r = r ≡ (ok found, remembered w found)

on_found :
    (p : FilePath) (f : Form) (more : List (FilePath × Form)) (w : World) (n : Node)
    → Finds w (first_file w.fs more) (locate_in more w)
    → Finds w (chosen p f (first_file w.fs more) (some n)) (looked p f (locate_in more) (ok n) w)
unfolding learn
on_found p f more w (file b r t) h = refl
on_found p f more w dir h = h
on_found p f more w special h = h

pub locate_in_lem :
    (names : List (FilePath × Form)) (w : World)
    → w.script ≡ []
    → locate_in names w ≡ (ok (first_file w.fs names), remembered w (first_file w.fs names))
unfolding locate_in first_file
locate_in_lem [] w calm = refl
locate_in_lem ((p, f) ∷ more) w calm = elim (Option-cases (at p w.fs)) [
  | inl e ↦
      subst (λ o. Finds w o (locate_in ((p, f) ∷ more) w)) (first_found w.fs p f more none e)
        (skip_missing p f more w calm e ∙ locate_in_lem more w calm)
  | inr (n, e) ↦
      subst (λ o. Finds w o (locate_in ((p, f) ∷ more) w)) (first_found w.fs p f more (some n) e)
        (answer_found p f more w n calm e ∙ on_found p f more w n (locate_in_lem more w calm))
]

-- When no call meets a failure and the candidate names can be made, `locate` answers with the
-- first candidate under which there is a file, or with none; it changes nothing but the form
-- that is tried first, which becomes the form found.
pub locate_lem :
    (s : Store) (d : Digest) (w : World) (names : List (FilePath × Form))
    → w.script ≡ []
    → candidates s w.first_form d ≡ ok names
    → locate s d w ≡ (ok (first_file w.fs names), remembered w (first_file w.fs names))
unfolding locate
locate_lem s d w names calm made = rw made (locate_in_lem names w calm)

pub total : Conversion → ℕ
total c = c.converted_count + c.already_count + c.skipped_count + length c.failed

total-tally :
    (c : Conversion) (e : Entry) (r : Result Error Step) → total (tally c e r) ≡ suc (total c)
unfolding total tally
total-tally c e (ok converted) = ground arith
total-tally c e (ok already) = ground arith
total-tally c e (ok skipped) = ground arith
total-tally c e (err error) = ground (
  arith,
  length-append c.failed
      (record { path = e.path; error = error; recoverable = is_recoverable error } ∷ []),
)

-- However the step ends on each entry, a pass over a walk that yields entries only completes,
-- and its four counts together have grown by the number of the entries.
pub pass-total :
    (step : Entry → World → Result Error Step × World) (c : Conversion) (entries : List Entry)
    (w : World)
    → (c' : Conversion) × ((pass step c (map ok entries) w).0 ≡ ok c')
      × (total c' ≡ total c + length entries)
unfolding pass
pass-total step c [] w = (c, refl, omega arith)
pass-total step c (e ∷ more) w =
    let r = step e w in
    let (c', done, count) = pass-total step (tally c e r.0) more r.1 in
    (c', done, omega (arith, count, total-tally c e r.0))
