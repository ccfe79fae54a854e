-- ===== src/Store/Adding.antt =====
-- The run of `Store::write` of src/store.rs where no call meets a failure: the temporary file, what
-- is written to it, and its way to the entry's name.
use immure.Prelude.{
  ℕ, ◌+◌, ◌≤◌, ◌<◌, ◌≡◌, refl, ap, sym, ◌∙◌, inr, Bool, true, false, none, some, List, [], ◌∷◌,
  arith,
}
use mathlib.Core.Path.{subst}
use immure.FilePath.{utf8, FilePath, join}
use immure.Error.{ok}
use immure.Exec.{◌>>=◌, ◌>>◌, pure, lift, bind_ok}
use immure.Digest.Types.{Digest}
use immure.Digest.{Hashes}
use immure.Layout.{Form, Layout, shard, entry_name}
use immure.World.{Node, file, Fs, at, put, World, Op}
use immure.World.Dirs.{IsClear, IsOff, put-other}
use immure.World.Calls.{at-put_self}
use immure.Protect.{ignored}
use immure.Temp.{temp_dir_name, temp_name, create_in, persist}
use immure.Temp.Creation.{temp_path, create_in-first_free}
use immure.Temp.Persist.{persist-IsPersisted}
use immure.Store.{Store, form}
use immure.Store.Codec.{Build}
use immure.Store.Make.{or_root_gone, make_dir, temp_dir}
use immure.Store.Dirs.{IsHome, IsReachable, has_parent_step, make_dir_lem, IsHome-made}
use immure.Store.Paths.{folder_of, path_of_form, temp_folder, shard_names, step-IsOff}
use immure.Store.Write.{or_drop, answered, place, new_temp}

-- Nothing is in the way of a new entry: the root is there, on the way to the temporary directory
-- and to the shard are directories or nothing, the next temporary name is free, and so are the
-- names of the entry in its three forms.
pub record IsReady (b : Build) (s : Store) (d : Digest) (w : World) : Type 0 where
  pub calm : w.script ≡ []
  pub home : IsHome s.layout.root w.fs
  pub temp_way : IsReachable (temp_folder s.layout) w.fs
  pub shard_way : IsReachable (folder_of s.layout d) w.fs
  pub temp_free : at (temp_path w (temp_folder s.layout) w.serial) w.fs ≡ none
  pub tries : 0 < b.tries
  pub settled : w.protection ≤ ignored
  pub absent : (f : Form) → at (path_of_form s.layout d f) w.fs ≡ none

or_root_gone_ok :
    {A : Type 0} (s : Store) (m : Op A) (w w' : World) (a : A)
    → m w ≡ (ok a, w')
    → or_root_gone s m w ≡ (ok a, w')
or_root_gone_ok s m w w' a run = rw run refl

pub or_drop_ok :
    {A : Type 0} (temp : FilePath) (m : Op A) (w w' : World) (a : A)
    → m w ≡ (ok a, w')
    → or_drop temp m w ≡ (ok a, w')
or_drop_ok temp m w w' a run = rw run refl

-- The new temporary file, in its directory.
pub record IsNewTemp (l : Layout) (temp : FilePath) (before after : World) : Type 0 where
  pub files : Fs
  pub result : after ≡ record before { serial = before.serial + 1; fs = files }
  pub there : at temp files ≡ some (file [] false before.clock)
  pub kept :
      (q : FilePath) (n : Node) → (temp ≡ q → ⊥) → at q before.fs ≡ some n → at q files ≡ some n
  pub clear : (q : FilePath) → (temp ≡ q → ⊥) → IsClear (at q before.fs) → IsClear (at q files)
  pub off : (q : FilePath) → (temp ≡ q → ⊥) → IsOff q (temp_folder l) → at q files ≡ at q before.fs

module _ {S : Type 0} (h : Hashes S) (b : Build) (s : Store) where
  abbrev pub temp_of : World → FilePath
  temp_of w = temp_path w (temp_folder s.layout) w.serial

  pub new_temp_lem :
      (d : Digest) (w : World)
      → IsReady b s d w
      → (after : World) × (new_temp h b s w ≡ (ok (temp_of w), after))
        × IsNewTemp s.layout (temp_of w) w after
  unfolding new_temp temp_dir
  new_temp_lem d w ready =
      let (fs1, run1, made) =
        make_dir_lem s (utf8 temp_dir_name ∷ []) w ready.calm ready.home ready.temp_way in
      let w1 : World = record w { fs = fs1 } in
      let free : at (temp_of w) fs1 ≡ none =
        made.off (temp_of w) (step-IsOff (temp_folder s.layout) (utf8 (temp_name w.pid w.serial)))
        ∙ ready.temp_free in
      let above =
        has_parent_step (temp_folder s.layout) (utf8 (temp_name w.pid w.serial)) fs1
          (inr (made.there (utf8 temp_dir_name) [] refl)) in
      let n = file [] false w.clock in
      let after : World = record w1 { serial = w.serial + 1; fs = put (temp_of w) n fs1 } in
      let made_temp =
        create_in-first_free b.tries (temp_folder s.layout) w1 w.serial ready.calm (omega arith)
          (omega (arith, ready.tries)) (λ j a c. absurd (omega arith)) free above in
      (
        after,
        bind_ok (temp_dir s) (λ folder. or_root_gone s (create_in b.tries folder)) w w1
              (temp_folder s.layout)
              (bind_ok (make_dir s (temp_folder s.layout)) (λ _. pure (temp_folder s.layout)) w w1
                tt run1)
            ∙ or_root_gone_ok s (create_in b.tries (temp_folder s.layout)) w1 after (temp_of w)
                made_temp,
        record {
          files = put (temp_of w) n fs1;
          result = refl;
          there = at-put_self (temp_of w) n fs1;
          kept = λ q m away e. put-other (temp_of w) q n fs1 away ∙ made.kept q m e;
          clear =
              λ q away e. subst IsClear (sym (put-other (temp_of w) q n fs1 away)) (made.clear q e);
          off = λ q away apart. put-other (temp_of w) q n fs1 away ∙ made.off q apart;
        },
      )

  abbrev pub dest_of : Digest → FilePath
  dest_of d = path_of_form s.layout d (form s)

  -- The temporary file has become the entry.
  pub record IsPlaced (temp : FilePath) (d : Digest) (stored : List ℕ) (t : ℕ)
      (before after : World) : Type 0 where
    pub flag : Bool
    pub state : ℕ
    pub files : Fs
    pub result : after ≡ record before { fs = files; protection = state }
    pub settled : state ≤ ignored
    pub there : at (dest_of d) files ≡ some (file stored flag t)
    pub gone : at temp files ≡ none
    pub kept :
        (q : FilePath) (n : Node)
        → (temp ≡ q → ⊥)
        → (dest_of d ≡ q → ⊥)
        → at q before.fs ≡ some n
        → at q files ≡ some n
    pub others :
        (q : FilePath)
        → (temp ≡ q → ⊥)
        → (dest_of d ≡ q → ⊥)
        → IsOff q (folder_of s.layout d)
        → at q files ≡ at q before.fs

  abbrev start_of : Digest → Op FilePath
  start_of d = do folder ← lift (shard s.layout d); make_dir s folder; pure folder

  abbrev rest_of : FilePath → Digest → FilePath → Op FilePath
  rest_of temp d folder = do
    let path = join folder (entry_name s.layout d (form s))
    placed ← or_root_gone s (persist temp path)
    answered h b s path d placed

  start_run :
      (d : Digest) (w w1 : World)
      → shard s.layout d ≡ ok (folder_of s.layout d)
      → make_dir s (folder_of s.layout d) w ≡ (ok tt, w1)
      → start_of d w ≡ (ok (folder_of s.layout d), w1)
  start_run d w w1 found run =
      bind_ok (lift (shard s.layout d)) (λ folder. make_dir s folder >> pure folder) w w
        (folder_of s.layout d) (ap (λ r. (r, w)) found)
      ∙ bind_ok (make_dir s (folder_of s.layout d)) (λ _. pure (folder_of s.layout d)) w w1 tt run

  rest_run :
      (temp : FilePath) (d : Digest) (w1 after : World)
      → persist temp (dest_of d) w1 ≡ (ok true, after)
      → rest_of temp d (folder_of s.layout d) w1 ≡ (ok (dest_of d), after)
  rest_run temp d w1 after run =
      bind_ok (or_root_gone s (persist temp (dest_of d))) (answered h b s (dest_of d) d) w1 after
        true (or_root_gone_ok s (persist temp (dest_of d)) w1 after true run)

  place_run :
      (temp : FilePath) (d : Digest) (w w1 after : World)
      → start_of d w ≡ (ok (folder_of s.layout d), w1)
      → rest_of temp d (folder_of s.layout d) w1 ≡ (ok (dest_of d), after)
      → place h b s temp d w ≡ (ok (dest_of d), after)
  unfolding place
  place_run temp d w w1 after started finished =
      bind_ok (or_drop temp (start_of d)) (rest_of temp d) w w1 (folder_of s.layout d)
        (or_drop_ok temp (start_of d) w w1 (folder_of s.layout d) started)
      ∙ finished

  pub place_lem :
      (temp : FilePath) (d : Digest) (stored : List ℕ) (r : Bool) (t : ℕ) (w : World)
      → w.script ≡ []
      → IsHome s.layout.root w.fs
      → IsReachable (folder_of s.layout d) w.fs
      → w.protection ≤ ignored
      → shard s.layout d ≡ ok (folder_of s.layout d)
      → at temp w.fs ≡ some (file stored r t)
      → at (dest_of d) w.fs ≡ none
      → (after : World) × (place h b s temp d w ≡ (ok (dest_of d), after))
        × IsPlaced temp d stored t w after
  place_lem temp d stored r t w calm home way settled found there free =
      let folder = folder_of s.layout d in
      let (fs1, run1, made) = make_dir_lem s (shard_names s.layout d) w calm home way in
      let w1 : World = record w { fs = fs1 } in
      let free1 : at (dest_of d) fs1 ≡ none =
        made.off (dest_of d) (step-IsOff folder (utf8 (entry_name s.layout d (form s)))) ∙ free in
      let above =
        has_parent_step folder (utf8 (entry_name s.layout d (form s))) fs1
          (IsHome-made s.layout.root (shard_names s.layout d) w.fs fs1 home made) in
      let (after, run2, done) =
        persist-IsPersisted temp (dest_of d) w1 stored r t calm
          (made.kept temp (file stored r t) there) free1 above settled in
      (
        after,
        place_run temp d w w1 after (start_run d w w1 found run1) (rest_run temp d w1 after run2),
        record {
          flag = done.flag;
          state = done.state;
          files = done.files;
          result = done.result;
          settled = done.settled;
          there = done.there;
          gone = done.gone;
          kept = λ q n away_temp away_dest e. done.others q away_temp away_dest ∙ made.kept q n e;
          others =
              λ q away_temp away_dest apart. done.others q away_temp away_dest ∙ made.off q apart;
        },
      )
