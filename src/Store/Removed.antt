-- ===== src/Store/Removed.antt =====
-- `Store::remove` of src/store.rs, and the look-up after it.
use immure.Prelude.{
  ℕ, ◌*◌, ◌≤◌, ◌≡◌, refl, ap, sym, ◌∙◌, inl, inr, Bool, true, none, some, List, [],
}
use immure.FilePath.{FilePath}
use immure.Error.{ok, ctx}
use immure.Digest.Types.{Digest, hex_len, len}
use immure.Layout.{Form, as_u8}
use immure.World.{file, at, erase, World}
use immure.World.Calls.{at-erase_self}
use immure.Protect.{remove_file}
use immure.Protect.Laws.{remove_file_calm}
use immure.Temp.Persist.{erase-other, file_there}
use immure.Store.{Store, locate, find}
use immure.Store.Aside.{remove}
use immure.Store.Paths.{path_of_form}
use immure.Store.Present.{same_form, locate-only}
use immure.Store.Answers.{locate-none}

remove_run :
    (s : Store) (d : Digest) (p : FilePath) (f : Form) (w w1 after : World)
    → locate s d w ≡ (ok (some (p, f)), w1)
    → remove_file p w1 ≡ (ok tt, after)
    → remove s d w ≡ (ok true, after)
unfolding remove find ctx
remove_run s d p f w w1 after found gone = rw (found, gone) refl

find-none :
    (s : Store) (d : Digest) (w : World) → locate s d w ≡ (ok none, w) → find s d w ≡ (ok none, w)
unfolding find
find-none s d w missed = rw missed refl

-- When no call meets a failure, for a digest of the store's algorithm's length, long enough
-- for the depth, of which a file lies in one form and nothing in the other two: `remove`
-- answers that there was an entry, `find` of the digest afterwards finds none, and no other
-- path has changed.
pub find-remove :
    (s : Store) (d : Digest) (g : Form) (stored : List ℕ) (flag : Bool) (time : ℕ) (w : World)
    → w.script ≡ []
    → len d ≡ hex_len s.algorithm
    → s.layout.depth * 2 ≤ len d
    → at (path_of_form s.layout d g) w.fs ≡ some (file stored flag time)
    → ((f : Form) → (g ≡ f → ⊥) → at (path_of_form s.layout d f) w.fs ≡ none)
    → (after : World) × (remove s d w ≡ (ok true, after))
      × (find s d after ≡ (ok none, after))
      × ((q : FilePath) → (path_of_form s.layout d g ≡ q → ⊥) → at q after.fs ≡ at q w.fs)
find-remove s d g stored flag time w calm own deep found absent =
    let p = path_of_form s.layout d g in
    let w1 : World = record w { first_form = as_u8 g } in
    let after : World = record w1 { fs = erase p w.fs } in
    let gone : (f : Form) → at (path_of_form s.layout d f) after.fs ≡ none = λ f.
      elim (same_form g f) [
        | inl same ↦
            ap (λ f. at (path_of_form s.layout d f) after.fs) (sym same) ∙ at-erase_self p w.fs
        | inr other ↦
            erase-other p (path_of_form s.layout d f) w.fs (
              file_there p (path_of_form s.layout d f) (file stored flag time) w.fs found
                (absent f other))
            ∙ absent f other
      ] in
    (
      after,
      remove_run s d p g w w1 after
          (locate-only s d g stored flag time w calm found absent own deep)
          (remove_file_calm p stored flag time w1 calm found),
      find-none s d after (locate-none s d after calm own deep gone),
      λ q away. erase-other p q w.fs away,
    )
