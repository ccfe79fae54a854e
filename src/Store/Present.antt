-- ===== src/Store/Present.antt =====
-- The look-ups of src/store.rs for a digest of which one form lies in the store and the other two
-- do not.
use immure.Prelude.{ℕ, ◌*◌, ◌≤◌, ◌≡◌, refl, ◌∙◌, ◌⊎◌, inl, inr, Bool, none, some, List, [], ◌∷◌}
use mathlib.Core.Path.{subst}
use immure.Error.{ok}
use immure.Digest.Types.{Digest, hex_len, len}
use immure.Digest.{Hashes}
use immure.Layout.{Form, raw, zstd, enc, with_others_after, as_u8, from_u8}
use immure.World.{file, Fs, at, World, read_file, sys, meet}
use immure.Store.{Store, named, candidates, locate, learn}
use immure.Store.Codec.{Build}
use immure.Store.Check.{open_in, open_entry}
use immure.Store.Laws.{candidates_shape, own_length}
use immure.Store.Paths.{folder_of, path_of_form}
use immure.Store.Stored.{shard_is}
use immure.Store.Search.{first_file, remembered, locate_lem}

-- Nothing under the names of the forms.
pub first_file-none :
    (s : Store) (d : Digest) (fs : Fs) (forms : List Form)
    → ((f : Form) → at (path_of_form s.layout d f) fs ≡ none)
    → first_file fs (named s d (folder_of s.layout d) forms) ≡ none
unfolding first_file
first_file-none s d fs [] absent = refl
first_file-none s d fs (f ∷ forms) absent = rw (absent f) (first_file-none s d fs forms absent)

pub candidates_lem :
    (s : Store) (byte : ℕ) (d : Digest)
    → len d ≡ hex_len s.algorithm
    → s.layout.depth * 2 ≤ len d
    → candidates s byte d ≡ ok (named s d (folder_of s.layout d) (with_others_after (from_u8 byte)))
candidates_lem s byte d own deep =
    candidates_shape s byte d (folder_of s.layout d) (own_length s d own) (shard_is s.layout d deep)

pub same_form : (g f : Form) → (g ≡ f) ⊎ (g ≡ f → ⊥)
same_form raw raw = inl refl
same_form raw zstd = inr (λ e. cc)
same_form raw enc = inr (λ e. cc)
same_form zstd raw = inr (λ e. cc)
same_form zstd zstd = inl refl
same_form zstd enc = inr (λ e. cc)
same_form enc raw = inr (λ e. cc)
same_form enc zstd = inr (λ e. cc)
same_form enc enc = inl refl

abbrev Holds : Form → List Form → Type 0
Holds g [] = ⊥
Holds g (f ∷ fs) = (g ≡ f) ⊎ Holds g fs

Holds-all : (x g : Form) → Holds g (with_others_after x)
unfolding with_others_after
Holds-all raw raw = inl refl
Holds-all raw zstd = inr (inl refl)
Holds-all raw enc = inr (inr (inl refl))
Holds-all zstd zstd = inl refl
Holds-all zstd enc = inr (inl refl)
Holds-all zstd raw = inr (inr (inl refl))
Holds-all enc enc = inl refl
Holds-all enc zstd = inr (inl refl)
Holds-all enc raw = inr (inr (inl refl))

pub open_in-missing :
    {S : Type 0} (h : Hashes S) (b : Build) (s : Store) (d : Digest) (f : Form) (more : List Form)
    (w : World)
    → w.script ≡ []
    → at (path_of_form s.layout d f) w.fs ≡ none
    → open_in h b (named s d (folder_of s.layout d) (f ∷ more)) w
      ≡ open_in h b (named s d (folder_of s.layout d) more) w
unfolding open_in read_file sys meet
open_in-missing h b s d f more w calm gone = rw (calm, gone) refl

module _ (s : Store) (d : Digest) (g : Form) (stored : List ℕ) (flag : Bool) (time : ℕ) (w : World)
    (calm : w.script ≡ [])
    (there : at (path_of_form s.layout d g) w.fs ≡ some (file stored flag time))
    (absent : (f : Form) → (g ≡ f → ⊥) → at (path_of_form s.layout d f) w.fs ≡ none) where
  found_first :
      (more : List Form)
      → first_file w.fs (named s d (folder_of s.layout d) (g ∷ more))
        ≡ some (path_of_form s.layout d g, g)
  unfolding first_file
  found_first more = rw there refl

  skipped_first :
      (f : Form) (more : List Form)
      → (g ≡ f → ⊥)
      → first_file w.fs (named s d (folder_of s.layout d) (f ∷ more))
        ≡ first_file w.fs (named s d (folder_of s.layout d) more)
  unfolding first_file
  skipped_first f more other = rw (absent f other) refl

  first_of :
      (forms : List Form)
      → Holds g forms
      → first_file w.fs (named s d (folder_of s.layout d) forms)
        ≡ some (path_of_form s.layout d g, g)
  first_of [] held = absurd held
  first_of (f ∷ forms) held = elim (same_form g f) [
    | inl e ↦
        subst
          (λ f.
            first_file w.fs (named s d (folder_of s.layout d) (f ∷ forms))
            ≡ some (path_of_form s.layout d g, g))
          e (found_first forms)
    | inr other ↦
        skipped_first f forms other
        ∙ first_of forms (elim held [ inl e ↦ absurd (other e) | inr later ↦ later ])
  ]

  module _ (own : len d ≡ hex_len s.algorithm) (deep : s.layout.depth * 2 ≤ len d) where
    pub locate-only :
        locate s d w ≡ (ok (some (path_of_form s.layout d g, g)), record w { first_form = as_u8 g })
    locate-only =
        let names = named s d (folder_of s.layout d) (with_others_after (from_u8 w.first_form)) in
        subst (λ found. locate s d w ≡ (ok found, remembered w found)) (first_of _ (Holds-all _ g))
          (locate_lem s d w names calm (candidates_lem s w.first_form d own deep))

  module _ {S : Type 0} (h : Hashes S) (b : Build) where
    opened_first :
        (more : List Form)
        → open_in h b (named s d (folder_of s.layout d) (g ∷ more)) w
          ≡ (ok (some (stored, g, path_of_form s.layout d g)), record w { first_form = as_u8 g })
    unfolding open_in read_file sys meet learn
    opened_first more = rw (calm, there) refl

    opened_of :
        (forms : List Form)
        → Holds g forms
        → open_in h b (named s d (folder_of s.layout d) forms) w
          ≡ (ok (some (stored, g, path_of_form s.layout d g)), record w { first_form = as_u8 g })
    opened_of [] held = absurd held
    opened_of (f ∷ forms) held = elim (same_form g f) [
      | inl e ↦
          subst
            (λ f. open_in h b (named s d (folder_of s.layout d) (f ∷ forms)) w ≡ (
              ok (some (stored, g, path_of_form s.layout d g)),
              record w { first_form = as_u8 g },
            ))
            e (opened_first forms)
      | inr other ↦
          open_in-missing h b s d f forms w calm (absent f other)
          ∙ opened_of forms (elim held [ inl e ↦ absurd (other e) | inr later ↦ later ])
    ]

    pub open_entry-only :
        len d ≡ hex_len s.algorithm
        → s.layout.depth * 2 ≤ len d
        → open_entry h b s d w
          ≡ (ok (some (stored, g, path_of_form s.layout d g)), record w { first_form = as_u8 g })
    unfolding open_entry
    open_entry-only own deep =
        rw (candidates_lem s w.first_form d own deep)
          (opened_of (with_others_after (from_u8 w.first_form)) (Holds-all _ g))
