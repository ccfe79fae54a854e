-- ===== src/Store/Returned.antt =====
-- `Store::quarantine` and `Store::restore` of src/store.rs, together.
use immure.Prelude.{
  ℕ, ◌<◌, ◌≡◌, refl, ap, sym, ◌∙◌, inl, inr, Text, text_eq_iff, Bool, true, Bool-cases, Option,
  none, some, List, [], ◌∷◌, length, length-append, if◌then◌else◌, arith,
}
use mathlib.Core.Path.{subst}
use immure.FilePath.{
  utf8, FilePath, join, file_name, with_file_name, parent-join, file_name-join, path_eq,
  path_eq_iff,
}
use immure.Error.{os, not_found, ok, err, ctx}
use immure.Exec.{◌>>=◌, pure, lift, bind_ok}
use immure.Temp.{answer_of}
use immure.Protect.{succeeded}
use immure.Digest.Types.{Digest, hex_len, len}
use immure.Digest.{Hashes, hash}
use immure.Digest.Parse.{IsDigest}
use immure.Layout.{Form, entry_name, quarantine_name}
use immure.Layout.Names.{IsLayout}
use immure.Layout.Aside.{parse_quarantined-quarantine_name, parse_name_of_quarantined}
use immure.World.{
  Node, file, Fs, at, put, erase, has_parent, World, Op, read_file, metadata, rename,
}
use immure.World.Calls.{
  IsTaken, read_file_calm, metadata_missing, rename_calm, at-put, at-erase, at-put_self,
  at-erase_self,
}
use immure.World.Dirs.{put-other}
use immure.Temp.Persist.{erase-other, file_there}
use immure.Store.{Entry, Store, own_digest}
use immure.Store.Codec.{Build, decode}
use immure.Store.Check.{named_at, reader_at, digest_of, content_matches}
use immure.Store.Laws.{own_length}
use immure.Store.Dirs.{IsHome, has_parent_step}
use immure.Store.Paths.{folder_of, path_of_form}
use immure.Store.Aside.{given_back, quarantine, restore}
use immure.Store.Serials.{aside_of, quarantine-first_free}
use immure.Store.Proven.{decode_world, named_aside}

both : {A B : Type 0} (x : A × B) (a : A) (c : B) → x.0 ≡ a → x.1 ≡ c → x ≡ (a, c)
both x a c p q = ap (λ y. (y, x.1)) p ∙ ap (λ z. (a, z)) q

module _ {S : Type 0} (h : Hashes S) (b : Build) (s : Store) where
  matched :
      (d : Digest) (f : Form) (p : FilePath) (bytes stored : List ℕ) (w after : World)
      → read_file p w ≡ (ok stored, w)
      → named_at s p ≡ some (d, f)
      → decode b s stored f p w ≡ (ok (ok bytes), after)
      → hash h s.algorithm bytes ≡ d
      → content_matches h b s p d w ≡ (ok true, after)
  unfolding content_matches digest_of reader_at ctx
  matched d f p bytes stored w after loaded known decoded same =
      rw (loaded, known, decoded, same, (text_eq_iff d.text d.text).1 refl) refl

  abbrev after_check : Store → Entry → Bool → Op (Option Entry)
  after_check s aside same =
      let target = with_file_name aside.path (entry_name s.layout aside.digest aside.form) in
      if same
      then (do answer ← answer_of (metadata target); given_back h b aside target (succeeded answer))
      else pure none

  restore_run :
      (aside : Entry) (target : FilePath) (w w1 after : World)
      → own_digest s aside.digest ≡ ok tt
      → content_matches h b s aside.path aside.digest w ≡ (ok true, w1)
      → with_file_name aside.path (entry_name s.layout aside.digest aside.form) ≡ target
      → metadata target w1 ≡ (err (os not_found []), w1)
      → rename aside.path target w1 ≡ (ok tt, after)
      → restore h b s aside w ≡ (ok (some (record aside { path = target })), after)
  unfolding restore ctx
  restore_run aside target w w1 after own same named_so free run =
      bind_ok (lift (own_digest s aside.digest))
        (λ _. ◌>>=◌ (content_matches h b s aside.path aside.digest) (after_check s aside)) w w tt
        (ap (λ r. (r, w)) own)
      ∙ (bind_ok (content_matches h b s aside.path aside.digest) (after_check s aside) w w1 true
            same
          ∙ rw (named_so, free, run) refl)

  -- The path that a set-aside entry has, in the entry's directory.
  abbrev aside_at : Digest → Form → ℕ → FilePath
  aside_at d f last = join (folder_of s.layout d) (quarantine_name (entry_name s.layout d f) last)

  with_name :
      (d : Digest) (a c : Text)
      → with_file_name (join (folder_of s.layout d) a) c ≡ join (folder_of s.layout d) c
  with_name d a c = ap (λ p. join p c) (parent-join (folder_of s.layout d) a)

  longer_name : (d : Digest) (a : Text) → join (folder_of s.layout d) a ≡ folder_of s.layout d → ⊥
  longer_name d a e =
      absurd (omega (arith, ap length e, length-append (folder_of s.layout d) (utf8 a ∷ [])))

  -- After the renaming the entry's directory is there as before.
  folder_stays :
      (d : Digest) (a c : Text) (n : Node) (fs : Fs)
      → IsHome (folder_of s.layout d) fs
      → IsHome
          (folder_of s.layout d)
          (put (join (folder_of s.layout d) a) n (erase (join (folder_of s.layout d) c) fs))
  folder_stays d a c n fs (inl e) = inl e
  folder_stays d a c n fs (inr there) = inr (
      put-other (join (folder_of s.layout d) a) (folder_of s.layout d) n
        (erase (join (folder_of s.layout d) c) fs) (longer_name d a)
      ∙ (erase-other (join (folder_of s.layout d) c) (folder_of s.layout d) fs (longer_name d c)
          ∙ there))

  -- Moved there and back, everything is as it was.
  back_again :
      (p a q : FilePath) (n : Node) (fs : Fs)
      → at p fs ≡ some n
      → at a fs ≡ none
      → at q (put p n (erase a (put a n (erase p fs)))) ≡ at q fs
  back_again p a q n fs there free = elim (Bool-cases (path_eq p q)) [
    | inl e ↦
        ap (λ q. at q (put p n (erase a (put a n (erase p fs))))) (sym ((path_eq_iff p q).0 e))
        ∙ (at-put_self p n (erase a (put a n (erase p fs)))
            ∙ (sym there ∙ ap (λ q. at q fs) ((path_eq_iff p q).0 e)))
    | inr other ↦
        at-put p q n (erase a (put a n (erase p fs)))
        ∙ rw other (elim (Bool-cases (path_eq a q)) [
          | inl e ↦
              ap (λ q. at q (erase a (put a n (erase p fs)))) (sym ((path_eq_iff a q).0 e))
              ∙ (at-erase_self a (put a n (erase p fs))
                  ∙ (sym free ∙ ap (λ q. at q fs) ((path_eq_iff a q).0 e)))
          | inr e ↦
              at-erase a q (put a n (erase p fs))
              ∙ rw e (at-put a q n (erase p fs) ∙ rw e (at-erase p q fs ∙ rw other refl))
        ])
  ]

  -- When no call meets a failure, for an entry that lies at the path of its form, decodes to a
  -- content with its digest as hash, and whose directory is there, for a free serial below 100
  -- all before which are taken: `quarantine` sets the entry aside, after which nothing lies at
  -- its path; `restore` of what was set aside then gives the entry back; and every path is as
  -- it was in the beginning.
  pub restore-quarantine :
      (d : Digest) (f : Form) (bytes stored : List ℕ) (flag : Bool) (time last : ℕ) (w : World)
      → IsLayout s.layout
      → IsDigest d
      → len d ≡ hex_len s.algorithm
      → w.script ≡ []
      → hash h s.algorithm bytes ≡ d
      → ((q : FilePath) (w : World) → (decode b s stored f q w).0 ≡ ok (ok bytes))
      → IsHome (folder_of s.layout d) w.fs
      → at (path_of_form s.layout d f) w.fs ≡ some (file stored flag time)
      → last < 100
      → ((j : ℕ)
          → j < last
          → IsTaken
              (aside_of s (record { digest = d; path = path_of_form s.layout d f; form = f }) j)
              w.fs)
      → at
          (aside_of s (record { digest = d; path = path_of_form s.layout d f; form = f }) last)
          w.fs
        ≡ none
      → (aside : Entry) × (w1 : World) × (w2 : World) × (quarantine s
            (record { digest = d; path = path_of_form s.layout d f; form = f })
            w
          ≡ (ok aside, w1))
        × (at (path_of_form s.layout d f) w1.fs ≡ none)
        × (restore h b s aside w1
            ≡ (ok (some (record { digest = d; path = path_of_form s.layout d f; form = f })), w2))
        × ((q : FilePath) → at q w2.fs ≡ at q w.fs)
  restore-quarantine d f bytes stored flag time last w names valid own calm same decodes home there
        bound taken free =
      let e : Entry = record { digest = d; path = path_of_form s.layout d f; form = f } in
      let name = entry_name s.layout d f in
      let qname = quarantine_name name last in
      let n = file stored flag time in
      let a = aside_of s e last in
      let place : a ≡ aside_at d f last = with_name d name qname in
      let above : has_parent a w.fs ≡ true =
        ap (λ p. has_parent p w.fs) place
        ∙ has_parent_step (folder_of s.layout d) (utf8 qname) w.fs home in
      let w1 : World = record w { fs = put a n (erase e.path w.fs) } in
      let apart : a ≡ e.path → ⊥ = λ x. file_there e.path a n w.fs there free (sym x) in
      let gone : at e.path w1.fs ≡ none =
        put-other a e.path n (erase e.path w.fs) apart ∙ at-erase_self e.path w.fs in
      let parsed = parse_quarantined-quarantine_name s.layout d f last names valid in
      let known =
        named_aside s a qname d f (ap file_name place ∙ file_name-join (folder_of s.layout d) qname)
          (parse_name_of_quarantined s.layout qname d f names parsed) parsed in
      let (proven, proved) = decode_world b s stored f a w1 in
      let w2 : World = record w1 { key_proven = proven } in
      let kept =
        matched d f a bytes stored w1 w2
          (read_file_calm a stored flag time w1 calm (at-put_self a n (erase e.path w.fs))) known
          (both (decode b s stored f a w1) (ok (ok bytes)) w2 (decodes a w1) proved) same in
      let home_after =
        subst (λ p. IsHome (folder_of s.layout d) (put p n (erase e.path w.fs))) (sym place)
          (folder_stays d qname name n w.fs home) in
      let returned =
        rename_calm a e.path n w2 calm (at-put_self a n (erase e.path w.fs)) gone
          (has_parent_step (folder_of s.layout d) (utf8 name) w1.fs home_after) in
      let w3 : World = record w2 { fs = put e.path n (erase a w1.fs) } in
      (
        record e { path = a },
        w1,
        w3,
        quarantine-first_free s e w n last calm bound taken free there above,
        gone,
        restore_run (record e { path = a }) e.path w1 w2 w3 (own_length s d own) kept
            (ap (λ p. with_file_name p name) place ∙ with_name d qname name)
            (metadata_missing e.path w2 calm gone) returned,
        λ q. back_again e.path a q n w.fs there free,
      )
