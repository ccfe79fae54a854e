-- ===== src/Store/Views.antt =====
-- What `Store::read` of src/store.rs answers depends on, of the world: the form that is tried first
-- and the files under the digest's own names.
use immure.Prelude.{
  ℕ, ◌*◌, ◌≤◌, ◌≡◌, refl, ap, sym, ◌∙◌, Bool-cases, inl, inr, Option, none, some, Option-cases,
  List, [], ◌∷◌,
}
use immure.FilePath.{FilePath}
use immure.Error.{Error, IoError, Result, ok, err, ctx}
use immure.Exec.{◌>>=◌, pure, lift, continue}
use immure.Digest.Types.{Digest, hex_len, len}
use immure.Digest.{Hashes}
use immure.Layout.{Form, raw, zstd, enc, with_others_after, from_u8}
use immure.World.{Node, file, dir, special, at, World, Op, context, read_file, sys, meet}
use immure.Store.{Store, named}
use immure.Store.Codec.{Build, decode}
use immure.Store.Check.{open_in, open_entry, read_of, read}
use immure.Store.Paths.{folder_of, path_of_form}
use immure.Store.Present.{candidates_lem, open_in-missing}

same_value :
    {A B : Type 0} (r : Result Error A) (f : A → World → Result Error B × World) (u v : World)
    → ((a : A) → (f a u).0 ≡ (f a v).0)
    → (continue r f u).0 ≡ (continue r f v).0
same_value (ok a) f u v same = same a
same_value (err e) f u v same = refl

bind_same :
    {A B : Type 0} (m : Op A) (f : A → Op B) (u v : World)
    → (m u).0 ≡ (m v).0
    → ((a : A) (u v : World) → (f a u).0 ≡ (f a v).0)
    → ((m >>= f) u).0 ≡ ((m >>= f) v).0
bind_same m f u v e same =
    ap (λ r. (continue r f (m u).1).0) e
    ∙ same_value (m v).0 f (m u).1 (m v).1 (λ a. same a (m u).1 (m v).1)

abbrev plain_of : Result IoError (List ℕ) → Op (Option (List ℕ))
plain_of content = do plain ← context (lift content); pure (some plain)

plain_same :
    (content : Result IoError (List ℕ)) (u v : World)
    → (plain_of content u).0 ≡ (plain_of content v).0
unfolding ctx
plain_same (ok bytes) u v = refl
plain_same (err e) u v = refl

module _ {S : Type 0} (h : Hashes S) (b : Build) (s : Store) where
  decode_same :
      (bytes : List ℕ) (f : Form) (p : FilePath) (u v : World)
      → (decode b s bytes f p u).0 ≡ (decode b s bytes f p v).0
  unfolding decode
  decode_same bytes raw p u v = refl
  decode_same bytes zstd p u v = refl
  decode_same bytes enc p u v = elim (Bool-cases b.features.crypt) [
    | inr off ↦ rw off refl
    | inl on ↦ elim (Option-cases s.key) [
      | inl keyless ↦ rw (on, keyless) refl
      | inr (key, keyed) ↦ rw (on, keyed) refl
    ]
  ]

  read_of_same :
      (there : Option (List ℕ × Form × FilePath)) (u v : World)
      → (read_of h b s there u).0 ≡ (read_of h b s there v).0
  read_of_same none u v = refl
  read_of_same (some (bytes, f, p)) u v =
      bind_same (decode b s bytes f p) plain_of u v (decode_same bytes f p u v) plain_same

  module _ (d : Digest) (u v : World) (calm_u : u.script ≡ []) (calm_v : v.script ≡ [])
      (same : (f : Form)
        → at (path_of_form s.layout d f) u.fs ≡ at (path_of_form s.layout d f) v.fs) where
    hit_same :
        (f : Form) (more : List Form) (n : Node)
        → at (path_of_form s.layout d f) u.fs ≡ some n
        → at (path_of_form s.layout d f) v.fs ≡ some n
        → (open_in h b (named s d (folder_of s.layout d) (f ∷ more)) u).0
          ≡ (open_in h b (named s d (folder_of s.layout d) (f ∷ more)) v).0
    unfolding open_in read_file sys meet
    hit_same f more (file b r t) there_u there_v = rw (calm_u, calm_v, there_u, there_v) refl
    hit_same f more dir there_u there_v = rw (calm_u, calm_v, there_u, there_v) refl
    hit_same f more special there_u there_v = rw (calm_u, calm_v, there_u, there_v) refl

    open_in_same :
        (forms : List Form)
        → (open_in h b (named s d (folder_of s.layout d) forms) u).0
          ≡ (open_in h b (named s d (folder_of s.layout d) forms) v).0
    unfolding open_in
    open_in_same [] = refl
    open_in_same (f ∷ more) = elim (Option-cases (at (path_of_form s.layout d f) u.fs)) [
      | inl gone ↦
          ap (λ r. r.0) (open_in-missing h b s d f more u calm_u gone)
          ∙ (open_in_same more
              ∙ sym (ap (λ r. r.0) (open_in-missing h b s d f more v calm_v (sym (same f) ∙ gone))))
      | inr (n, there) ↦ hit_same f more n there (sym (same f) ∙ there)
    ]

    module _ (first_same : u.first_form ≡ v.first_form) (own : len d ≡ hex_len s.algorithm)
        (deep : s.layout.depth * 2 ≤ len d) where
      opening :
          (w : World)
          → (open_entry h b s d w)
            ≡ open_in h b
                (named s d (folder_of s.layout d) (with_others_after (from_u8 w.first_form)))
                w
      unfolding open_entry
      opening w = rw (candidates_lem s w.first_form d own deep) refl

      open_entry_same : (open_entry h b s d u).0 ≡ (open_entry h b s d v).0
      open_entry_same =
          ap (λ r. r.0) (opening u)
          ∙ (open_in_same (with_others_after (from_u8 u.first_form))
              ∙ (ap
                    (λ x.
                      (open_in h b
                        (named s d (folder_of s.layout d) (with_others_after (from_u8 x))) v).0)
                    first_same
                  ∙ sym (ap (λ r. r.0) (opening v))))

      pub read_same : (read h b s d u).0 ≡ (read h b s d v).0
      unfolding read
      read_same = bind_same (open_entry h b s d) (read_of h b s) u v open_entry_same read_of_same

  -- Nothing is read where nothing lies.
  open_in-none :
      (d : Digest) (w : World)
      → w.script ≡ []
      → ((f : Form) → at (path_of_form s.layout d f) w.fs ≡ none)
      → (forms : List Form) → open_in h b (named s d (folder_of s.layout d) forms) w ≡ (ok none, w)
  unfolding open_in
  open_in-none d w calm absent [] = refl
  open_in-none d w calm absent (f ∷ more) =
      open_in-missing h b s d f more w calm (absent f) ∙ open_in-none d w calm absent more

  pub read-none :
      (d : Digest) (w : World)
      → w.script ≡ []
      → len d ≡ hex_len s.algorithm
      → s.layout.depth * 2 ≤ len d
      → ((f : Form) → at (path_of_form s.layout d f) w.fs ≡ none)
      → (read h b s d w).0 ≡ ok none
  unfolding read open_entry
  read-none d w calm own deep absent =
      rw
        (
          candidates_lem s w.first_form d own deep,
          open_in-none d w calm absent (with_others_after (from_u8 w.first_form)),
        )
        refl
