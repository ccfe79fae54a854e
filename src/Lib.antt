-- ===== src/Lib.antt =====
-- A model of immure, a content-addressed store of files under one directory: entries are named after
-- the hash of their content, may be compressed, and may be sealed with a key.
--
-- The parts, in the order in which they use one another:
-- - Prelude: lists, text and decimal numbers over the native natural numbers, and their lemmas.
-- - FilePath: paths as lists of components. Error: src/error.rs. Exec: methods that change a state
--   and may fail.
-- - Digest: src/digest.rs. `Algorithm`, `Digest::parse` (`parse`), `Digest::shards` (`shards`),
--   `to_hex`, and `Hasher` (`hasher`, `update`, `finish`). SHA-2 and BLAKE3 are the parameter
--   `Hashes`; what is relied on of them is `IsHashes`.
-- - Layout: src/layout.rs. `Layout::new` (`layout`), `Layout::file_name` (`entry_name`),
--   `Layout::path` (`entry_path`), `parse_name`, `quarantine_name`, `parse_quarantined` and the
--   three forms of an entry, `Form`.
-- - Stream: readers and writers as lists of what the next calls meet, and `fill` of
--   src/crypt/cipher.rs.
-- - Cipher: src/crypt/cipher.rs. `Sealer` (`sealer`, `write`, `finish`, `seal`) in Cipher, `Opener`
--   (`read`, `next_chunk`, `open_blob` for `open`) in Cipher.Opener. Cipher.Frame describes a sealed
--   blob as one recursion over the content, and Cipher.Opener.Chunks its opening as one recursion
--   over the blob. XChaCha20-Poly1305 is the parameter `Aead`, with the hypothesis `IsAead`.
-- - World: the file system as a map from paths, its listings in World.Listing, with a script that says
--   what each call on it meets (a failure, or what another writer does first), and the cells that the
--   clones of a store share.
-- - Protect: src/protect.rs. Temp: src/temp.rs, a temporary file being reached by its path.
-- - Store: src/store.rs. `Builder::build`, `candidates`, `locate` and what stands on them in Store, the
--   builder's settings in Store.Options; src/compress.rs and `encode`, `decode` in Store.Codec;
--   `digest_of`, `verify`, `read` in Store.Check, `prove_key` in Store.Prove; `make_dir` and
--   `root_gone` in Store.Make; `add`, `add_reader`, `place` in Store.Write; `quarantine`, `restore`,
--   `discard`, `remove` in Store.Aside; `Entries` in Store.Walk (`load`, `next` as `walk_loop`,
--   `entries` as `all_entries`); `matching` in Store.Matching; `prune_temp_files` and
--   `prune_empty_dirs` in Store.Prune; `convert` in Store.Convert; the passes, `change_key` among
--   them, in Store.Passes. Store.Content, Store.Dirs, Store.Adding, Store.Stored and Store.Present
--   follow an `add` and the look-ups after it call by call, for Store.RoundTrip and Store.Contents.
--   Store.Returned and Store.Removed do so for `restore` and `remove`, Store.Walk.Completes for a walk
--   (Store.Walk.Below says what lies below a directory),
--   Store.Matching.Found for `matching` and Store.Prune.Leftovers for `prune_temp_files`. Store.Views
--   says what of the world a `read` depends on.
-- - Tests: concrete instances.
--
-- Bounds and fuel. `decimal` runs n + 1 rounds, each of which divides by ten. `fill` has two rounds
-- more than the source has events, `write_whole` one for each byte, since a write takes one at
-- least, `Opener::read` two refills, since only the last chunk of a blob is empty, and `open_blob`
-- one read more than the blob has bytes. `TempFile::create_in` tries one name after the other without
-- end; the model is given a number of tries, and answers with the error of a taken name after them.
-- A walk is given how many directories it may read (`rounds` of `Build`), and `collect_dirs` how deep
-- the tree may be; both answer `none` where that was not enough. Store.Walk.Weight counts how many
-- directories a walk reads. `Entries` reads a directory whole before it hands out its first entry; the
-- model hands all of them over together.
-- The chunk number is bounded by 2^32, as `u32` is.
--
-- Not modelled: symbolic links, modes beyond the read-only flag, and open handles. Streams through
-- zstd: a content is read and written whole, so that a file that fails while it is read, and a
-- directory that has an entry's name, is one that cannot be opened. A name is one component of a
-- path: a suffix that holds a separator is not told apart. The serial of temporary files and twice
-- the depth of the shards are natural numbers and do not wrap. The texts of error messages, the log
-- and the wiping of keys.
pub mod Prelude
pub mod FilePath
pub mod Error
pub mod Digest
pub mod Layout
pub mod Exec
pub mod Stream
pub mod Cipher
pub mod World
pub mod Protect
pub mod Temp
pub mod Store
pub mod Tests
