-- ===== src/Store/Codec.antt =====
-- src/compress.rs and the seal of src/store.rs, over whole contents: zstd is another crate's code
-- and enters as the parameter `Zstd`. A reader below a decoder that fails ends the decoder with
-- the same error.
use immure.Prelude.{ℕ, Bool, true, Option, none, some, List, [], ◌∷◌, suc, length, if◌then◌else◌}
use immure.FilePath.{FilePath}
use immure.Error.{
  IoError, Error, key_required, compression_unavailable, encryption_unavailable, Result, ok, err,
}
use immure.Exec.{◌>>=◌, raise, lift}
use immure.Layout.{Form, is_compressed, is_encrypted}
use immure.Cipher.{Key, Aead, nonce_random, seal}
use immure.Cipher.Opener
use immure.Cipher.Opener.{slice}
use immure.World.{World, Op, context, write_file}
use immure.Protect.{succeeded}
use immure.Store.{Features, Store}

pub record Zstd : Type 0 where
  pub compress : List ℕ → List ℕ
  pub decompress : List ℕ → Result IoError (List ℕ)

-- What the build has, and the other crates' code that it uses.
pub record Build : Type 0 where
  pub features : Features
  pub zstd : Zstd
  pub aead : Aead
  -- how often `TempFile::create_in` is let try
  pub tries : ℕ
  -- how many directories a walk is let read
  pub rounds : ℕ

-- `BLOCK_SIZE`
abbrev pub block_size : ℕ
block_size = 65536

abbrev pub decompressed : Zstd → Result IoError (List ℕ) → Result IoError (List ℕ)
decompressed z (ok bytes) = z.decompress bytes
decompressed z (err e) = err e

abbrev pub compressed : Zstd → Result Error (List ℕ) → Result Error (List ℕ)
compressed z (ok bytes) = ok (z.compress bytes)
compressed z (err e) = err e

module _ (b : Build) where
  -- `compress::copy`, `source` being what reading the source to its end gives.
  unfoldable pub copy : Result Error (List ℕ) → Bool → Result Error (List ℕ)
  copy source compress =
      if compress
      then (if b.features.zstd then compressed b.zstd source else err compression_unavailable)
      else source

  -- `compress::reader` read to its end.
  unfoldable pub reader : Result IoError (List ℕ) → Bool → Result Error (Result IoError (List ℕ))
  reader source compressed =
      if compressed
      then (if b.features.zstd
          then ok (decompressed b.zstd source)
          else err compression_unavailable)
      else ok source

  -- An `Opener` over a file, read to its end.
  unfoldable pub unsealed : Key → List ℕ → Result IoError (List ℕ)
  unsealed key bytes =
      Opener.read_to_end b.aead block_size (suc (length bytes)) (Opener.opener key (slice bytes)) []

  -- Whether the first read of an `Opener` over the file gets through.
  unfoldable pub opens : ℕ → Key → List ℕ → Bool
  opens room key bytes = succeeded (Opener.read b.aead room (Opener.opener key (slice bytes))).0

  -- `Proving`, which the decoder above reads at least once.
  unfoldable pub proving : Key → List ℕ → World → World
  unfolding opens
  proving key bytes w = if opens block_size key bytes then record w { key_proven = true } else w

  -- `Store::decode`, the reader being read to its end.
  unfoldable pub decode : Store → List ℕ → Form → FilePath → Op (Result IoError (List ℕ))
  unfolding reader unsealed proving
  decode s bytes form path w =
      if is_encrypted form
      then (if b.features.crypt
          then elim s.key [
            | none ↦ (err (key_required path), w)
            | some key ↦ (
              reader (unsealed key bytes) true,
              if b.features.zstd then proving key bytes w else w,
            )
          ]
          else (err encryption_unavailable, w))
      else (reader (ok bytes) (is_compressed form), w)

  -- The bytes that `getrandom` will answer next, if any.
  unfoldable pub draw : Op (Option (List ℕ))
  draw w = elim w.draws [ [] ↦ (ok none, w) | d ∷ more ↦ (ok d, record w { draws = more }) ]

  -- `Sealer::new`, `compress::copy` into it and `Sealer::finish`, on the temporary file: `seal_into`
  -- where `compress` is true.
  unfoldable pub seal_into : Result Error (List ℕ) → FilePath → Key → Bool → Op (Unit {0})
  unfolding copy draw write_file
  seal_into source path key compress = do
    drawn ← draw
    plain ← elim (nonce_random drawn) [ err e ↦ raise e | ok n ↦ lift (copy source compress) ]
    sealed ← lift (seal b.aead key drawn plain)
    context (write_file path sealed)

  -- `Store::encode`
  unfoldable pub encode : Store → Result Error (List ℕ) → FilePath → Form → Op (Unit {0})
  unfolding copy write_file seal_into
  encode s source path form =
      if is_encrypted form
      then (if b.features.crypt
          then elim s.key [
            | none ↦ raise (key_required path)
            | some key ↦ seal_into source path key true
          ]
          else raise encryption_unavailable)
      else (do bytes ← lift (copy source (is_compressed form)); context (write_file path bytes))
