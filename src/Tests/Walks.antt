-- ===== src/Tests/Walks.antt =====
-- The walk, the look-up by prefix and the sweep of src/store.rs, on a small store.
use immure.Prelude.{
  ℕ, ◌<◌, ◌≡◌, refl, ap, sym, ◌∙◌, ◌↔◌, codes, decimal, text_eq, Text, to_ascii_lowercase, true,
  false, none, some, inl, inr, List, [], ◌∷◌, ◌++◌, map, IsRising, arith,
}
use mathlib.Core.List.{Memᴰ}
use mathlib.Core.List.Memᴰ
use immure.FilePath.{FilePath, utf8, path_eq, name_eq}
use immure.Error.{ok}
use immure.Digest.Types.{Digest, sha256}
use immure.Digest.{pieces}
use immure.Layout.{zstd, entry_name, layout, normalise_suffix, shard_of}
use immure.Layout.Names.{IsLayout, layout-IsLayout}
use immure.World.{Node, file, dir, Fs, at, World}
use immure.World.Listing.{child_of, children}
use immure.Temp.{temp_dir_name, temp_name}
use immure.Store.{Entry, Store, made}
use immure.Store.Walk.{Walk, all_entries}
use immure.Store.Walk.Below.{Below}
use immure.Store.Walk.Weight.{weight, longest, sum_dirs, dirs_below}
use immure.Store.Walk.Listed.{IsMap}
use immure.Store.Walk.Completes.{all_entries-Below}
use immure.Store.Matching.{digest_ltb, matching}
use immure.Store.Matching.Found.{NamesOne, matching-NamesOne}
use immure.Store.Prune.{prune_temp_files}
use immure.Store.Prune.Swept.{IsSwept}
use immure.Store.Prune.Leftovers.{prune_temp_files-IsSwept}

abbrev root_path : FilePath
root_path = utf8 (codes "store") ∷ []

abbrev small_store : Store
small_store = made (record {
  root = root_path;
  suffix = codes "json";
  depth = 1;
  algorithm = sha256;
  compress = true;
  create_root = false;
  key = none;
})

abbrev one_digest : Digest
one_digest = record {
  text = codes "0123456789abcdef0123456789abcdef0123456789abcdef0123456789abcdef";
}

abbrev shard_path : FilePath
shard_path = root_path ++ utf8 (codes "01") ∷ []

abbrev temp_path : FilePath
temp_path = root_path ++ utf8 (codes "tmp") ∷ []

abbrev entry_node : Node
entry_node = file (codes "frame") true 5

abbrev left_node : Node
left_node = file [] false 1

abbrev file_path : FilePath
file_path = shard_path ++ utf8 (entry_name small_store.layout one_digest zstd) ∷ []

abbrev left_path : FilePath
left_path = temp_path ++ utf8 (temp_name 12 0) ∷ []

abbrev small_fs : Fs
small_fs =
    (file_path, entry_node)
    ∷ (left_path, left_node)
    ∷ (temp_path, dir)
    ∷ (shard_path, dir)
    ∷ (root_path, dir)
    ∷ []

abbrev small_world : World
small_world = record {
  fs = small_fs;
  script = [];
  clock = 9;
  pid = 13;
  serial = 0;
  draws = [];
  first_form = 1;
  key_proven = false;
  protection = 0;
}

listed_there :
    (q : FilePath) (n : Node) (x : FilePath × Node)
    → (q, n) ≡ x
    → at x.0 small_fs ≡ some x.1
    → at q small_fs ≡ some n
listed_there q n x e found = ap (λ y. at y.0 small_fs) e ∙ (found ∙ sym (ap (λ y. some y.1) e))

small-IsMap : IsMap small_fs
unfolding at path_eq name_eq text_eq layout entry_name normalise_suffix temp_name decimal
small-IsMap q n m = elim (Memᴰ.cases_cons m) [
  | inl e ↦ listed_there q n _ e refl
  | inr m ↦ elim (Memᴰ.cases_cons m) [
    | inl e ↦ listed_there q n _ e refl
    | inr m ↦ elim (Memᴰ.cases_cons m) [
      | inl e ↦ listed_there q n _ e refl
      | inr m ↦ elim (Memᴰ.cases_cons m) [
        | inl e ↦ listed_there q n _ e refl
        | inr m ↦ listed_there q n _ (Memᴰ.eq_of_singleton m) refl
      ]
    ]
  ]
]

root_there : at small_store.layout.root small_fs ≡ some dir
unfolding at path_eq name_eq text_eq layout
root_there = refl

few_dirs : dirs_below small_fs small_store.layout.root < 10
unfolding weight longest sum_dirs children child_of name_eq text_eq layout
few_dirs = omega arith

is_layout : IsLayout small_store.layout
is_layout = layout-IsLayout root_path (codes "json") 1

all_entries-Below_example :
    (found : List Entry) × (all_entries Walk.entries 10 small_store small_world
      ≡ (ok (some (map ok found)), small_world))
    × ((e : Entry)
        → Memᴰ e found ↔ Below small_store.layout Walk.entries small_fs small_store.layout.root e)
all_entries-Below_example =
    all_entries-Below small_store Walk.entries small_world refl small-IsMap 10 is_layout root_there
      few_dirs

abbrev prefix : Text
prefix = codes "0123"

shard_there : at (shard_of small_store.layout (to_ascii_lowercase prefix)) small_fs ≡ some dir
unfolding at path_eq name_eq text_eq layout shard_of pieces
shard_there = refl

matching-NamesOne_example :
    (found : List Digest) × (matching small_store prefix small_world ≡ (ok found, small_world))
    × IsRising digest_ltb found
    × ((d : Digest)
        → Memᴰ d found
          ↔ NamesOne small_store
              (to_ascii_lowercase prefix)
              (children (shard_of small_store.layout (to_ascii_lowercase prefix)) small_fs)
              d)
unfolding layout
matching-NamesOne_example =
    matching-NamesOne small_store prefix small_world refl shard_there refl refl (omega arith)

temp_there : at (root_path ++ utf8 temp_dir_name ∷ []) small_fs ≡ some dir
unfolding at path_eq name_eq text_eq
temp_there = refl

prune_temp_files-IsSwept_example :
    (count : ℕ) × (fs : Fs) × (prune_temp_files small_store 5 small_world
      ≡ (ok count, record small_world { fs = fs }))
    × IsSwept 4
        (root_path ++ utf8 temp_dir_name ∷ [])
        (children (root_path ++ utf8 temp_dir_name ∷ []) small_fs)
        small_fs
        fs
unfolding layout
prune_temp_files-IsSwept_example =
    prune_temp_files-IsSwept small_store 5 small_world refl temp_there (omega arith)
