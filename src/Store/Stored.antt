-- ===== src/Store/Stored.antt =====
-- `Store::write` of src/store.rs where no call meets a failure: what lies under the entry's name.
use immure.Prelude.{
  ℕ, ◌+◌, ◌*◌, ◌≤◌, ◌<◌, ◌≡◌, refl, ap, sym, ◌∙◌, Bool, false, none, some, List, [], ◌∷◌, ◌++◌,
  append_assoc, inl, inr, arith,
}
use mathlib.Core.Path.{subst}
use immure.FilePath.{utf8, FilePath}
use immure.Error.{ok}
use immure.Exec.{◌>>◌, bind_ok}
use immure.Digest.Types.{Digest, len}
use immure.Digest.{Hashes, shards}
use immure.Digest.Parse.{IsDigest}
use immure.Layout.{Form, Layout, shard, entry_name}
use immure.Layout.Names.{IsLayout}
use immure.World.{Node, file, dir, Fs, at, put, World}
use immure.World.Dirs.{IsClear, put-other}
use immure.World.Calls.{at-put_self}
use immure.Cipher.Opener.Chunks.{IsAead}
use immure.Temp.{temp_name, temp_dir_name}
use immure.Temp.Persist.{file_there}
use immure.Store.{Store, form}
use immure.Store.Codec.{Build, decode, encode}
use immure.Store.Content.{IsZstd, CanWrite, CanSeal, encode_any}
use immure.Store.Dirs.{IsHome, IsReachable}
use immure.Store.Paths.{
  folder_of, path_of_form, longer-IsOff, longer_entry, step-IsOff, temp-apart, entry-IsOff_temp,
  forms-apart,
}
use immure.Store.Adding.{IsReady, or_drop_ok, temp_of, dest_of, new_temp_lem, place_lem}
use immure.Store.Write.{or_drop, place, new_temp, write}

pub shard_is : (l : Layout) (d : Digest) → l.depth * 2 ≤ len d → shard l d ≡ ok (folder_of l d)
unfolding shard shards
shard_is l d deep = ground arith

module _ {S : Type 0} (h : Hashes S) (b : Build) (s : Store) where
  -- The entry lies under its name in the form that the store writes, and under no other; no file
  -- that was there has changed.
  pub record IsStored (d : Digest) (bytes : List ℕ) (before after : World) : Type 0 where
    pub stored : List ℕ
    pub flag : Bool
    pub time : ℕ
    pub calm : after.script ≡ []
    pub there : at (dest_of h b s d) after.fs ≡ some (file stored flag time)
    pub decodes : (q : FilePath) (w : World) → (decode b s stored (form s) q w).0 ≡ ok (ok bytes)
    pub absent : (f : Form) → (form s ≡ f → ⊥) → at (path_of_form s.layout d f) after.fs ≡ none
    pub kept : (q : FilePath) (n : Node) → at q before.fs ≡ some n → at q after.fs ≡ some n
    pub first_same : after.first_form ≡ before.first_form
    pub others :
        (e : Digest) (f : Form)
        → 3 < len e
        → (dest_of h b s d ≡ path_of_form s.layout e f → ⊥)
        → at (path_of_form s.layout e f) after.fs ≡ at (path_of_form s.layout e f) before.fs

  temp_shape :
      (w : World) (y : FilePath)
      → temp_of h b s w ++ y
        ≡ s.layout.root ++ utf8 temp_dir_name ∷ (utf8 (temp_name w.pid w.serial) ∷ y)
  temp_shape w y = simp (append_assoc)

  temp-entry :
      (d : Digest) (f : Form) (w : World)
      → 3 < len d
      → temp_of h b s w ≡ path_of_form s.layout d f
      → ⊥
  temp-entry d f w long e =
      temp-apart s.layout d f (utf8 (temp_name w.pid w.serial) ∷ []) long
        (sym e ∙ simp (append_assoc))

  temp-way :
      (d : Digest) (w : World) (q back : FilePath)
      → 3 < len d
      → folder_of s.layout d ≡ q ++ back
      → temp_of h b s w ≡ q
      → ⊥
  temp-way d w q back long e same =
      temp-apart s.layout d (form s)
        (utf8 (temp_name w.pid w.serial) ∷ (back ++ utf8 (entry_name s.layout d (form s)) ∷ []))
        long
        (ap (λ p. p ++ utf8 (entry_name s.layout d (form s)) ∷ [])
            (e ∙ ap (λ p. p ++ back) (sym same))
          ∙ simp (append_assoc))

  write_run :
      (d : Digest) (bytes : List ℕ) (temp : FilePath) (w w1 w2 after : World)
      → new_temp h b s w ≡ (ok temp, w1)
      → encode b s (ok bytes) temp (form s) w1 ≡ (ok tt, w2)
      → place h b s temp d w2 ≡ (ok (dest_of h b s d), after)
      → write h b s d bytes w ≡ (ok (dest_of h b s d), after)
  unfolding write
  write_run d bytes temp w w1 w2 after r1 r2 r3 =
      bind_ok (new_temp h b s)
        (λ temp. or_drop temp (encode b s (ok bytes) temp (form s)) >> place h b s temp d) w w1 temp
        r1
      ∙ bind_ok (or_drop temp (encode b s (ok bytes) temp (form s))) (λ _. place h b s temp d) w1 w2
          tt (or_drop_ok temp (encode b s (ok bytes) temp (form s)) w1 w2 tt r2)
      ∙ r3

  -- Where the temporary file is there and holds what it shall: the way of the entry is still clear.
  shard_way :
      (d : Digest) (w : World) (n : Node) (files : Fs)
      → 3 < len d
      → IsReady b s d w
      → ((q : FilePath) → (temp_of h b s w ≡ q → ⊥) → IsClear (at q w.fs) → IsClear (at q files))
      → IsReachable (folder_of s.layout d) (put (temp_of h b s w) n files)
  shard_way d w n files long ready clear front back c e =
      let q = front ++ c ∷ [] in
      let away = temp-way d w q back long e in
      subst IsClear (sym (put-other (temp_of h b s w) q n files away))
        (clear q away (ready.shard_way front back c e))

  IsHome-stays :
      (d : Digest) (w : World) (n : Node) (files : Fs)
      → IsReady b s d w
      → ((q : FilePath) (m : Node)
          → (temp_of h b s w ≡ q → ⊥)
          → at q w.fs ≡ some m
          → at q files ≡ some m)
      → IsHome s.layout.root (put (temp_of h b s w) n files)
  IsHome-stays d w n files ready kept = elim ready.home [
    | inl e ↦ inl e
    | inr there ↦
        let away : temp_of h b s w ≡ s.layout.root → ⊥ =
          λ e. file_there s.layout.root (temp_of h b s w) dir w.fs there ready.temp_free (sym e) in
        inr (
          put-other (temp_of h b s w) s.layout.root n files away
          ∙ kept s.layout.root dir away there)
  ]

  pub write-IsStored :
      IsZstd b.zstd
      → IsAead b.aead
      → (d : Digest) (bytes : List ℕ) (w : World) → IsLayout s.layout
      → IsDigest d
      → 3 < len d
      → s.layout.depth * 2 ≤ len d
      → CanWrite b s (form s)
      → CanSeal b (form s) bytes w
      → IsReady b s d w
      → (after : World) × (write h b s d bytes w ≡ (ok (dest_of h b s d), after))
        × IsStored d bytes w after
  write-IsStored sound laws d bytes w names valid long deep can seals ready =
      let temp = temp_of h b s w in
      let dest = dest_of h b s d in
      let (after1, r1, made) = new_temp_lem h b s d w ready in
      let w1 : World = record w { serial = w.serial + 1; fs = made.files } in
      let (after2, r2, coded) =
        encode_any b sound laws s bytes temp w.clock w1 ready.calm made.there (form s) can
          (record { drawn = seals.drawn; fits = seals.fits }) in
      let n = file coded.stored false w.clock in
      let w2 : World = record w1 { fs = put temp n made.files; draws = coded.draws } in
      let apart : (f : Form) → temp ≡ path_of_form s.layout d f → ⊥ = λ f. temp-entry d f w long in
      let free : (f : Form) → at (path_of_form s.layout d f) w2.fs ≡ none = λ f.
        put-other temp (path_of_form s.layout d f) n made.files (apart f)
        ∙ (made.off (path_of_form s.layout d f) (apart f) (entry-IsOff_temp s.layout d f long)
            ∙ ready.absent f) in
      let (after3, r3, placed) =
        place_lem h b s temp d coded.stored false w.clock w2 ready.calm
          (IsHome-stays d w n made.files ready made.kept)
          (shard_way d w n made.files long ready made.clear) ready.settled
          (shard_is s.layout d deep) (at-put_self temp n made.files) (free (form s)) in
      let w3 : World = record w2 { fs = placed.files; protection = placed.state } in
      (
        w3,
        write_run d bytes temp w w1 w2 w3 (r1 ∙ ap (λ x. (ok temp, x)) made.result)
            (r2 ∙ ap (λ x. (ok tt, x)) coded.result) (r3 ∙ ap (λ x. (ok dest, x)) placed.result),
        record {
          stored = coded.stored;
          flag = placed.flag;
          time = w.clock;
          calm = ready.calm;
          there = placed.there;
          decodes = coded.decodes;
          absent = λ f other.
              placed.others (path_of_form s.layout d f) (apart f)
                (λ e. other (forms-apart s.layout d (form s) f names valid e))
                (step-IsOff (folder_of s.layout d) (utf8 (entry_name s.layout d f)))
              ∙ free f;
          first_same = refl;
          others = λ e f long_e away.
              let p = path_of_form s.layout e f in
              let apart_e = temp-entry e f w long_e in
              placed.others p apart_e away
                (longer-IsOff p (folder_of s.layout d) (longer_entry s.layout d e f))
              ∙ (put-other temp p n made.files apart_e
                  ∙ made.off p apart_e (entry-IsOff_temp s.layout e f long_e));
          kept = λ q m e.
              let away : temp ≡ q → ⊥ =
                λ same. file_there q temp m w.fs e ready.temp_free (sym same) in
              placed.kept q m away
                (λ same. file_there q dest m w.fs e (ready.absent (form s)) (sym same))
                (put-other temp q n made.files away ∙ made.kept q m away e);
        },
      )
