-- ===== src/Tests/Returned.antt =====
-- src/store.rs: an entry set aside and given its name back, and one removed.
use immure.Prelude.{
  ◌*◌, ◌≤◌, ◌≡◌, refl, codes, text_eq, true, false, none, some, inr, [], ◌∷◌, arith,
}
use immure.FilePath.{FilePath, path_eq, name_eq}
use immure.Error.{ok}
use immure.Digest.Types.{Digest, sha256, hex_len, len}
use immure.Digest.{hash, hasher, update, finish, to_hex, pieces}
use immure.Digest.Hashing.{hash-IsDigest}
use immure.Layout.{Form, zstd, layout, normalise_suffix, entry_name, quarantine_name}
use immure.Layout.Names.{layout-IsLayout}
use immure.World.{Node, file, dir, at, World}
use immure.Store.{Entry, Store, made, find}
use immure.Store.Codec.{decode, reader}
use immure.Store.Paths.{folder_of, path_of_form}
use immure.Store.Aside.{quarantine, restore, remove}
use immure.Store.Serials.{aside_of}
use immure.Store.Removed.{find-remove}
use immure.Store.Returned.{restore-quarantine}
use immure.Tests.Toys.{length_hashes, length_hashes-IsHashes}
use immure.Tests.Adding.{root_path, full_build, content}

abbrev packing_store : Store
packing_store = made (record {
  root = root_path;
  suffix = codes "json";
  depth = 1;
  algorithm = sha256;
  compress = true;
  create_root = false;
  key = none;
})

abbrev kept_digest : Digest
kept_digest = hash length_hashes sha256 content

abbrev kept_node : Node
kept_node = file (40 ∷ content) true 5

abbrev kept_entry : Entry
kept_entry = record {
  digest = kept_digest;
  path = path_of_form packing_store.layout kept_digest zstd;
  form = zstd;
}

abbrev kept_world : World
kept_world = record {
  fs =
      (kept_entry.path, kept_node)
      ∷ (folder_of packing_store.layout kept_digest, dir)
      ∷ (root_path, dir)
      ∷ [];
  script = [];
  clock = 9;
  pid = 12;
  serial = 0;
  draws = [];
  first_form = 1;
  key_proven = false;
  protection = 0;
}

folder_there : at (folder_of packing_store.layout kept_digest) kept_world.fs ≡ some dir
unfolding at path_eq name_eq text_eq layout pieces hash hasher update finish to_hex length_hashes
folder_there = refl

entry_there : at kept_entry.path kept_world.fs ≡ some kept_node
unfolding at path_eq name_eq text_eq layout pieces hash hasher update finish to_hex length_hashes
    entry_name normalise_suffix
entry_there = refl

aside_free : at (aside_of packing_store kept_entry 0) kept_world.fs ≡ none
unfolding at path_eq name_eq text_eq layout pieces hash hasher update finish to_hex length_hashes
    entry_name normalise_suffix quarantine_name
aside_free = refl

decodes :
    (q : FilePath) (w : World)
    → (decode full_build packing_store (40 ∷ content) zstd q w).0 ≡ ok (ok content)
unfolding decode reader
decodes q w = refl

restore-quarantine_example :
    (aside : Entry) × (w1 : World) × (w2 : World) × (quarantine packing_store kept_entry kept_world
      ≡ (ok aside, w1))
    × (at kept_entry.path w1.fs ≡ none)
    × (restore length_hashes full_build packing_store aside w1 ≡ (ok (some kept_entry), w2))
    × ((q : FilePath) → at q w2.fs ≡ at q kept_world.fs)
restore-quarantine_example =
    restore-quarantine length_hashes full_build packing_store kept_digest zstd content
      (40 ∷ content) true 5 0 kept_world (layout-IsLayout root_path (codes "json") 1)
      (hash-IsDigest length_hashes length_hashes-IsHashes sha256 content).0
      (hash-IsDigest length_hashes length_hashes-IsHashes sha256 content).1 refl refl decodes
      (inr folder_there) entry_there (omega arith) (λ j c. absurd (omega arith)) aside_free

sixty_four : hex_len sha256 ≡ 64
unfolding hex_len
sixty_four = refl

others_absent :
    (f : Form)
    → (zstd ≡ f → ⊥)
    → at (path_of_form packing_store.layout kept_digest f) kept_world.fs ≡ none
unfolding at path_eq name_eq text_eq layout pieces hash hasher update finish to_hex length_hashes
    entry_name normalise_suffix
others_absent Form.raw other = refl
others_absent zstd other = absurd (other refl)
others_absent Form.enc other = refl

deep_enough : packing_store.layout.depth * 2 ≤ len kept_digest
unfolding layout
deep_enough =
    omega (arith, (hash-IsDigest length_hashes length_hashes-IsHashes sha256 content).1, sixty_four)

find-remove_example :
    (after : World) × (remove packing_store kept_digest kept_world ≡ (ok true, after))
    × (find packing_store kept_digest after ≡ (ok none, after))
    × ((q : FilePath) → (kept_entry.path ≡ q → ⊥) → at q after.fs ≡ at q kept_world.fs)
find-remove_example =
    find-remove packing_store kept_digest zstd (40 ∷ content) true 5 kept_world refl
      (hash-IsDigest length_hashes length_hashes-IsHashes sha256 content).1 deep_enough entry_there
      others_absent
