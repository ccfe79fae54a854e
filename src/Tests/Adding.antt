-- ===== src/Tests/Adding.antt =====
-- src/store.rs: content added to an empty store that compresses and encrypts.
use immure.Prelude.{
  ℕ, ◌≡◌, refl, codes, text_eq, true, false, Bool-cases, inl, inr, none, some, List, [], ◌∷◌, ◌++◌,
  drop, arith,
}
use immure.FilePath.{FilePath, utf8, path_eq}
use immure.Error.{ok}
use immure.Digest.Types.{Digest, sha256, max_depth}
use immure.Digest.{hash, pieces}
use immure.Layout.{layout, Form, as_u8}
use immure.World.{Node, dir, Fs, at, World}
use immure.World.Dirs.{IsClear}
use immure.Cipher.{chunk_size_lem}
use immure.Store.{Builder, Store, Status, Entry, build, made, form, fresh, exists, find}
use immure.Store.Codec.{Build, Zstd}
use immure.Store.Check.{read, verify}
use immure.Store.Write.{add}
use immure.Store.Content.{IsZstd, CanSeal}
use immure.Store.Paths.{path_of_form}
use immure.Store.Adding.{IsReady, dest_of}
use immure.Store.RoundTrip.{add-read, add-add, add-verify}
use immure.Store.Views.{read-none}
use immure.Store.Built.{deep_enough}
use immure.Store.Contents.{Contents, IsView, insert_content, add-insert_content}
use immure.Tests.Toys.{zeros, plain_aead, plain_aead-IsAead, length_hashes, length_hashes-IsHashes}

abbrev pub root_path : FilePath
root_path = utf8 (codes "store") ∷ []

-- A frame is the content behind one byte.
abbrev pub byte_zstd : Zstd
byte_zstd = record { compress = λ bytes. 40 ∷ bytes; decompress = λ frame. ok (drop 1 frame) }

byte_zstd-IsZstd : IsZstd byte_zstd
byte_zstd-IsZstd = record { restores = λ bytes. refl }

abbrev pub full_build : Build
full_build = record {
  features = record { zstd = true; crypt = true };
  zstd = byte_zstd;
  aead = plain_aead;
  tries = 3;
  rounds = 10;
}

abbrev sealing_builder : Builder
sealing_builder = record {
  root = root_path;
  suffix = codes "json";
  depth = 2;
  algorithm = sha256;
  compress = true;
  create_root = false;
  key = some (record { bytes = zeros 32 });
}

abbrev sealing_store : Store
sealing_store = made sealing_builder

sealing_built : build full_build.features sealing_builder ≡ ok (sealing_store, 2)
unfolding build max_depth
sealing_built = refl

abbrev empty_fs : Fs
empty_fs = (root_path, dir) ∷ []

abbrev empty_world : World
empty_world = record {
  fs = empty_fs;
  script = [];
  clock = 9;
  pid = 12;
  serial = 0;
  draws = some (zeros 19) ∷ [];
  first_form = 2;
  key_proven = false;
  protection = 0;
}

abbrev pub content : List ℕ
content = codes "{}"

abbrev its_digest : Digest
its_digest = hash length_hashes sha256 content

-- In an empty store every path is free or a directory.
empty-IsClear : (q : FilePath) → IsClear (at q empty_fs)
unfolding at
empty-IsClear q = elim (Bool-cases (path_eq root_path q)) [
  | inl e ↦ inr (rw e refl)
  | inr e ↦ inl (rw e refl)
]

absent : (d : Digest) (f : Form) → at (path_of_form sealing_store.layout d f) empty_fs ≡ none
unfolding at path_eq layout text_eq pieces
absent d f = refl

seals : CanSeal full_build (form sealing_store) content empty_world
unfolding form
seals = record {
  drawn = λ e. (record { bytes = zeros 19 }, [], refl, refl);
  fits = λ e. omega (arith, chunk_size_lem);
}

ready : IsReady full_build sealing_store its_digest empty_world
unfolding at path_eq layout text_eq
ready = record {
  calm = refl;
  home = inr refl;
  temp_way = λ front back c e. empty-IsClear (front ++ c ∷ []);
  shard_way = λ front back c e. empty-IsClear (front ++ c ∷ []);
  temp_free = refl;
  tries = omega arith;
  settled = omega arith;
  absent = absent its_digest;
}

add-read_example :
    (after : World) × (add length_hashes full_build sealing_store content empty_world ≡ (
      ok (
        fresh,
        record {
          digest = its_digest;
          path = dest_of length_hashes full_build sealing_store its_digest;
          form = form sealing_store;
        },
      ),
      after,
    ))
    × ((read length_hashes full_build sealing_store its_digest after).0 ≡ ok (some content))
    × ((q : FilePath) (n : Node) → at q empty_world.fs ≡ some n → at q after.fs ≡ some n)
add-read_example =
    add-read length_hashes length_hashes-IsHashes full_build byte_zstd-IsZstd plain_aead-IsAead
      sealing_builder sealing_store 2 sealing_built content empty_world seals ready

add-add_example :
    (after : World) × (add length_hashes full_build sealing_store content empty_world ≡ (
      ok (
        fresh,
        record {
          digest = its_digest;
          path = dest_of length_hashes full_build sealing_store its_digest;
          form = form sealing_store;
        },
      ),
      after,
    ))
    × (add length_hashes full_build sealing_store content after ≡ (
      ok (
        exists,
        record {
          digest = its_digest;
          path = dest_of length_hashes full_build sealing_store its_digest;
          form = form sealing_store;
        },
      ),
      record after { first_form = as_u8 (form sealing_store) },
    ))
add-add_example =
    add-add length_hashes length_hashes-IsHashes full_build byte_zstd-IsZstd plain_aead-IsAead
      sealing_builder sealing_store 2 sealing_built content empty_world seals ready

add-verify_example :
    (status : Status) × (e : Entry) × (after : World) × (add length_hashes full_build sealing_store
        content empty_world
      ≡ (ok (status, e), after))
    × ((verify length_hashes full_build sealing_store e after).0 ≡ ok true)
    × ((find sealing_store e.digest after).0 ≡ ok (some e.path))
add-verify_example =
    add-verify length_hashes length_hashes-IsHashes full_build byte_zstd-IsZstd plain_aead-IsAead
      sealing_builder sealing_store 2 sealing_built content empty_world seals ready

abbrev nothing_yet : Contents
nothing_yet d = none

empty-IsView : IsView length_hashes full_build sealing_store nothing_yet empty_world
empty-IsView d valid own =
    read-none length_hashes full_build sealing_store d empty_world refl own
      (deep_enough full_build sealing_builder sealing_store 2 sealing_built d own) (absent d)

add-insert_content_example :
    (after : World) × (add length_hashes full_build sealing_store content empty_world ≡ (
      ok (
        fresh,
        record {
          digest = its_digest;
          path = dest_of length_hashes full_build sealing_store its_digest;
          form = form sealing_store;
        },
      ),
      after,
    ))
    × IsView length_hashes full_build sealing_store
        (insert_content its_digest content nothing_yet)
        after
add-insert_content_example =
    add-insert_content length_hashes length_hashes-IsHashes full_build byte_zstd-IsZstd
      plain_aead-IsAead sealing_builder sealing_store 2 sealing_built content nothing_yet
      empty_world seals ready empty-IsView
