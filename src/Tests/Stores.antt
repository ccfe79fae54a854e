-- ===== src/Tests/Stores.antt =====
-- src/store.rs and src/protect.rs on a small store.
use immure.Prelude.{
  ◌+◌, ◌≤◌, ◌≡◌, refl, ◌⊎◌, codes, text_eq, length, map, true, false, none, some, List, [], ◌∷◌,
  ◌++◌, arith,
}
use immure.FilePath.{FilePath, utf8, name_eq, path_eq}
use immure.Error.{Error, os, permission_denied, damaged, Result, ok, err}
use immure.Digest.Types.{sha256, hex_len, max_depth, Digest, len}
use immure.Digest.{shards, pieces}
use immure.Layout.{
  Form, raw, zstd, enc, from_u8, entry_name, entry_path, shard, with_others_after, layout,
  normalise_suffix, quarantine_name,
}
use immure.Temp.{temp_name, create_in, persist}
use immure.Temp.Moves.{published, persist-published}
use immure.Temp.Creation.{temp_path, Makes, create_in-first_free}
use immure.Prelude.{decimal, decimal_digits, text_eq, ◌+◌, ◌<◌}
use immure.FilePath.{join}
use immure.FilePath.{OsName}
use immure.Error.{err, root_missing}
use immure.Store.Make.{make_dir}
use immure.Store.Roots.{make_dir-root_missing}
use immure.World.{file, dir, Fs, at, put, erase, remove, Happening, fails, World, has_parent}
use immure.Protect.{unknown, holds, ignored, apply, remove_file}
use immure.Protect.Laws.{apply-IsSettled, apply-protects, remove_file-refused}
use immure.Store.{
  Entry, Store, Builder, Features, build, made, form, named, own_digest, candidates, locate,
}
use immure.Store.Laws.{Among, build-form, candidates-build}
use immure.Store.Search.{first_file, remembered, locate_lem, total, pass-total}
use immure.Store.Serials.{aside_of, quarantine-first_free}
use immure.Store.Aside.{quarantine}
use immure.Store.Passes.{Step, Conversion, no_conversion, pass}

abbrev root_path : FilePath
root_path = utf8 (codes "store") ∷ []

abbrev some_digest : Digest
some_digest = record {
  text = codes "0123456789abcdef0123456789abcdef0123456789abcdef0123456789abcdef";
}

abbrev all_features : Features
all_features = record { zstd = true; crypt = true }

abbrev some_builder : Builder
some_builder = record {
  root = root_path;
  suffix = codes "json";
  depth = 1;
  algorithm = sha256;
  compress = true;
  create_root = false;
  key = none;
}

some_store : Store
some_store = made some_builder

store_built : build all_features some_builder ≡ ok (some_store, 1)
unfolding build some_store max_depth
store_built = refl

build-form_example :
    (some_store.layout.depth ≤ max_depth some_store.algorithm) × (from_u8 1 ≡ form some_store)
build-form_example = build-form all_features some_builder some_store 1 store_built

own_length : len some_digest ≡ hex_len some_store.algorithm
unfolding some_store hex_len
own_length = refl

candidates-build_example :
    (names : List (FilePath × Form)) × (candidates some_store 0 some_digest ≡ ok names)
    × ((f : Form)
        → (p : FilePath) × (entry_path some_store.layout some_digest f ≡ ok p) × Among (p, f) names)
candidates-build_example =
    candidates-build all_features some_builder some_store 1 0 some_digest store_built own_length

some_entry : Entry
unfolding some_store
some_entry = record {
  digest = some_digest;
  path = root_path ++ utf8 (codes "01") ∷ utf8 (entry_name some_store.layout some_digest zstd) ∷ [];
  form = zstd;
}

some_fs : Fs
unfolding some_entry
some_fs =
    (some_entry.path, file (codes "frame") false 5)
    ∷ (root_path ++ utf8 (codes "01") ∷ [], dir)
    ∷ (root_path, dir)
    ∷ []

some_world : World
some_world = record {
  fs = some_fs;
  script = [];
  clock = 9;
  pid = 12;
  serial = 0;
  draws = [];
  first_form = 0;
  key_proven = false;
  protection = 0;
}

calm : some_world.script ≡ []
unfolding some_world
calm = refl

file_there : at some_entry.path some_world.fs ≡ some (file (codes "frame") false 5)
unfolding some_world some_fs some_entry some_store at path_eq name_eq text_eq entry_name layout
    normalise_suffix
file_there = refl

shard_path : FilePath
shard_path = root_path ++ utf8 (codes "01") ∷ []

names_of : List (FilePath × Form)
unfolding some_store shard_path
names_of = named some_store some_digest shard_path (raw ∷ zstd ∷ enc ∷ [])

names_made : candidates some_store some_world.first_form some_digest ≡ ok names_of
unfolding some_world some_store candidates names_of own_digest shard shards pieces with_others_after
    from_u8 shard_path hex_len layout
names_made = refl

locate_lem_example : locate some_store some_digest some_world ≡ (
  ok (first_file some_world.fs names_of),
  remembered some_world (first_file some_world.fs names_of),
)
locate_lem_example = locate_lem some_store some_digest some_world names_of calm names_made

free_name : at (aside_of some_store some_entry 0) some_world.fs ≡ none
unfolding some_world some_fs some_entry some_store at path_eq name_eq text_eq entry_name layout
    normalise_suffix quarantine_name
free_name = refl

folder_there : has_parent (aside_of some_store some_entry 0) some_world.fs ≡ true
unfolding some_world some_fs some_entry some_store at path_eq name_eq text_eq entry_name layout
    normalise_suffix quarantine_name
folder_there = refl

quarantine-first_free_example : quarantine some_store some_entry some_world ≡ (
  ok (record some_entry { path = aside_of some_store some_entry 0 }),
  record some_world {
    fs =
        put
          (aside_of some_store some_entry 0)
          (file (codes "frame") false 5)
          (erase some_entry.path some_world.fs);
  },
)
quarantine-first_free_example =
    quarantine-first_free some_store some_entry some_world (file (codes "frame") false 5) 0 calm
      (omega arith) (λ j h. absurd (omega arith)) free_name file_there folder_there

abbrev stumbles : Entry → World → Result Error Step × World
stumbles e w = (err damaged, w)

pass-total_example :
    (c : Conversion) × ((pass stumbles no_conversion (map ok (some_entry ∷ [])) some_world).0
      ≡ ok c)
    × (total c ≡ total no_conversion + length (some_entry ∷ []))
pass-total_example = pass-total stumbles no_conversion (some_entry ∷ []) some_world

unsettled : some_world.protection ≤ ignored
unfolding some_world
unsettled = omega arith

new : some_world.protection ≡ unknown
unfolding some_world
new = refl

apply-IsSettled_example :
    ((apply some_entry.path some_world).protection ≡ holds)
    ⊎ ((apply some_entry.path some_world).protection ≡ ignored)
apply-IsSettled_example = apply-IsSettled some_entry.path some_world unsettled

apply-protects_example : apply some_entry.path some_world ≡ record some_world {
  fs = put some_entry.path (file (codes "frame") true 5) some_world.fs;
  protection = holds;
}
apply-protects_example =
    apply-protects some_entry.path some_world (codes "frame") false 5 calm file_there new

-- The second removal is refused as well.
abbrev refused_too : List Happening
refused_too = fails (os permission_denied []) ∷ []

refusing : World
refusing = record some_world {
  script = fails (os permission_denied []) ∷ Happening.calm ∷ Happening.calm ∷ refused_too;
}

refusal :
    refusing.script
    ≡ fails (os permission_denied []) ∷ Happening.calm ∷ Happening.calm ∷ refused_too
unfolding refusing
refusal = refl

file_there_too : at some_entry.path refusing.fs ≡ some (file (codes "frame") false 5)
unfolding refusing
file_there_too = file_there

remove_file-refused_example :
    remove_file some_entry.path refusing
    ≡ remove some_entry.path (record refusing {
      script = refused_too;
      fs = put some_entry.path (file (codes "frame") false 5) refusing.fs;
    })
remove_file-refused_example =
    remove_file-refused some_entry.path refusing refused_too (codes "frame") false 5 refusal
      file_there_too

other_path : FilePath
unfolding shard_path
other_path = join shard_path (codes "moved")

other_free : at other_path some_world.fs ≡ none
unfolding some_world some_fs some_entry some_store at path_eq name_eq text_eq entry_name layout
    normalise_suffix shard_path other_path
other_free = refl

other_above : has_parent other_path some_world.fs ≡ true
unfolding some_world some_fs some_entry some_store at path_eq name_eq text_eq entry_name layout
    normalise_suffix shard_path other_path
other_above = refl

persist-published_example :
    persist some_entry.path other_path some_world
    ≡ (ok true, published some_world some_entry.path other_path (codes "frame") 5)
persist-published_example =
    persist-published some_entry.path other_path some_world (codes "frame") false 5 calm file_there
      other_free other_above new

temp_free : at (temp_path some_world shard_path 0) some_world.fs ≡ none
unfolding some_world some_fs some_entry some_store at path_eq name_eq text_eq entry_name layout
    normalise_suffix shard_path temp_name decimal decimal_digits
temp_free = refl

temp_above : has_parent (temp_path some_world shard_path 0) some_world.fs ≡ true
unfolding some_world some_fs some_entry some_store at path_eq name_eq text_eq entry_name layout
    normalise_suffix shard_path temp_name decimal decimal_digits
temp_above = refl

first_serial : some_world.serial ≤ 0
unfolding some_world
first_serial = omega arith

enough_tries : 0 < some_world.serial + 3
unfolding some_world
enough_tries = omega arith

create_in-first_free_example : Makes some_world shard_path 0 (create_in 3 shard_path some_world)
create_in-first_free_example =
    create_in-first_free 3 shard_path some_world 0 calm first_serial enough_tries
      (λ j a b. absurd (omega arith)) temp_free temp_above

empty_world : World
unfolding some_world
empty_world = record some_world { fs = [] }

abbrev some_name : OsName
some_name = utf8 (codes "01")

makes_none : some_store.creates_root ≡ false
unfolding some_store
makes_none = refl

empty_calm : empty_world.script ≡ []
unfolding empty_world some_world
empty_calm = refl

empty_free : at (some_store.layout.root ++ some_name ∷ []) empty_world.fs ≡ none
unfolding empty_world some_world at some_store layout
empty_free = refl

empty_above : has_parent (some_store.layout.root ++ some_name ∷ []) empty_world.fs ≡ false
unfolding empty_world some_world at some_store layout
empty_above = refl

make_dir-root_missing_example :
    make_dir some_store (some_store.layout.root ++ some_name ∷ []) empty_world
    ≡ (err (root_missing some_store.layout.root), empty_world)
make_dir-root_missing_example =
    make_dir-root_missing some_store some_name [] empty_world makes_none empty_calm empty_free
      empty_above
