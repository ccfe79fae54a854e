-- ===== src/Store/Content.antt =====
-- `Store::encode` and `Store::decode` of src/store.rs, together: what one writes, the other reads.
use immure.Prelude.{
  ℕ, suc, ◌-◌, ◌*◌, ◌<◌, ◌≡◌, refl, ap, ◌∙◌, Bool, true, false, Option, some, List, [], ◌∷◌, length,
}
use immure.FilePath.{FilePath}
use immure.Error.{IoError, Error, Result, ok, err, ctx}
use immure.Layout.{Form, raw, zstd, enc, is_compressed, is_encrypted}
use immure.Cipher.{Key, Nonce, nonce_random, nonce_len, u32_mod, chunk_size, unwrap_io}
use immure.Cipher.Opener.{open_blob}
use immure.Cipher.Opener.Chunks.{IsAead}
use immure.Cipher.RoundTrip.{open-seal}
use immure.World.{file, at, put, World, write_file, sys, meet}
use immure.Store.{Store}
use immure.Store.Codec.{
  Zstd, Build, compressed, decompressed, copy, reader, unsealed, decode, draw, seal_into, encode,
}

-- What is relied on of zstd: a frame decompresses to what was compressed.
pub record IsZstd (z : Zstd) : Type 0 where
  pub restores : (bytes : List ℕ) → z.decompress (z.compress bytes) ≡ ok bytes

-- The build can write the form.
pub record CanWrite (b : Build) (s : Store) (f : Form) : Type 0 where
  pub zstd_there : is_compressed f ≡ true → b.features.zstd ≡ true
  pub crypt_there : is_encrypted f ≡ true → b.features.crypt ≡ true
  pub key_there : is_encrypted f ≡ true → (key : Key) × (s.key ≡ some key)

-- A nonce can be drawn where one is needed, and the frame is not too long for the chunk numbers.
pub record CanSeal (b : Build) (f : Form) (bytes : List ℕ) (w : World) : Type 0 where
  pub drawn :
      is_encrypted f ≡ true
      → (nonce : Nonce) × (more : List (Option (List ℕ))) × (w.draws ≡ some nonce.bytes ∷ more)
        × (length nonce.bytes ≡ nonce_len)
  pub fits : is_encrypted f ≡ true → length (b.zstd.compress bytes) < (u32_mod - 1) * chunk_size

write_file_calm :
    (p : FilePath) (stored old : List ℕ) (r : Bool) (t : ℕ) (w : World)
    → w.script ≡ []
    → at p w.fs ≡ some (file old r t)
    → write_file p stored w ≡ (ok tt, record w { fs = put p (file stored r t) w.fs })
unfolding write_file sys meet
write_file_calm p stored old r t w calm there = rw (calm, there) refl

-- After `encode`: the file has bytes that decode to the content.
pub record IsEncoded (b : Build) (s : Store) (f : Form) (bytes : List ℕ) (p : FilePath) (t : ℕ)
    (before after : World) : Type 0 where
  pub stored : List ℕ
  pub draws : List (Option (List ℕ))
  pub result : after ≡ record before { fs = put p (file stored false t) before.fs; draws = draws }
  pub decodes : (q : FilePath) (w : World) → (decode b s stored f q w).0 ≡ ok (ok bytes)

copy_on :
    (b : Build) (source : Result Error (List ℕ))
    → b.features.zstd ≡ true
    → copy b source true ≡ compressed b.zstd source
unfolding copy
copy_on b source on = simp (copy, on)

reader_on :
    (b : Build) (source : Result IoError (List ℕ))
    → b.features.zstd ≡ true
    → reader b source true ≡ ok (decompressed b.zstd source)
unfolding reader
reader_on b source on = simp (reader, on)

abbrev answer : Result IoError (List ℕ) → Result Error (List ℕ)
answer r = elim r as (λ _. Result Error (List ℕ)) [
  | ok found ↦ ok found
  | err e ↦ err (unwrap_io e)
]

opened_ok : (r : Result IoError (List ℕ)) (plain : List ℕ) → answer r ≡ ok plain → r ≡ ok plain
opened_ok (ok found) plain e = cc
opened_ok (err x) plain e = cc

unsealed_ok :
    (b : Build) (key : Key) (sealed plain : List ℕ)
    → open_blob b.aead (suc 65535) key sealed ≡ ok plain
    → unsealed b key sealed ≡ ok plain
unfolding open_blob unsealed
unsealed_ok b key sealed plain e = opened_ok _ plain e

decode_enc :
    (b : Build) (s : Store) (key : Key) (stored : List ℕ) (q : FilePath) (w : World)
    → s.key ≡ some key
    → b.features.crypt ≡ true
    → (decode b s stored enc q w).0 ≡ reader b (unsealed b key stored) true
unfolding decode
decode_enc b s key stored q w keyed on = simp (decode, keyed, on)

encode_sealing :
    (b : Build) (s : Store) (key : Key) (source : Result Error (List ℕ)) (p : FilePath) (w : World)
    → s.key ≡ some key
    → b.features.crypt ≡ true
    → encode b s source p enc w ≡ seal_into b source p key true w
unfolding encode
encode_sealing b s key source p w keyed on = simp (encode, keyed, on)

draw_next :
    (b : Build) (d : Option (List ℕ)) (more : List (Option (List ℕ))) (w : World)
    → w.draws ≡ d ∷ more
    → draw b w ≡ (ok d, record w { draws = more })
unfolding draw
draw_next b d more w e = simp (draw, e)

module _ (b : Build) (sound : IsZstd b.zstd) (laws : IsAead b.aead) (s : Store) (bytes : List ℕ)
    (p : FilePath) (t : ℕ) (w : World) (calm : w.script ≡ [])
    (empty : at p w.fs ≡ some (file [] false t)) where
  encode_raw :
      (after : World) × (encode b s (ok bytes) p raw w ≡ (ok tt, after))
      × IsEncoded b s raw bytes p t w after
  unfolding encode copy decode reader ctx
  encode_raw = (
    record w { fs = put p (file bytes false t) w.fs },
    simp (write_file_calm p bytes [] false t w calm empty),
    record { stored = bytes; draws = w.draws; result = refl; decodes = λ q w'. refl },
  )

  encode_zstd :
      CanWrite b s zstd
      → (after : World) × (encode b s (ok bytes) p zstd w ≡ (ok tt, after))
        × IsEncoded b s zstd bytes p t w after
  unfolding encode decode ctx
  encode_zstd can =
      let stored = b.zstd.compress bytes in
      (
        record w { fs = put p (file stored false t) w.fs },
        simp (
          copy_on b (ok bytes) (can.zstd_there refl),
          write_file_calm p stored [] false t w calm empty,
        ),
        record {
          stored = stored;
          draws = w.draws;
          result = refl;
          decodes =
              λ q w'. reader_on b (ok stored) (can.zstd_there refl) ∙ ap ok (sound.restores bytes);
        },
      )

  encode_enc :
      CanWrite b s enc
      → CanSeal b enc bytes w
      → (after : World) × (encode b s (ok bytes) p enc w ≡ (ok tt, after))
        × IsEncoded b s enc bytes p t w after
  unfolding seal_into nonce_random ctx
  encode_enc can ready =
      let (key, keyed) = can.key_there refl in
      let (nonce, more, drawn, long) = ready.drawn refl in
      let plain = b.zstd.compress bytes in
      let (stored, sealed, opened) =
        open-seal b.aead laws key nonce plain 65535 long (ready.fits refl) in
      (
        record w { fs = put p (file stored false t) w.fs; draws = more },
        encode_sealing b s key (ok bytes) p w keyed (can.crypt_there refl)
            ∙ simp (
              draw_next b (some nonce.bytes) more w drawn,
              copy_on b (ok bytes) (can.zstd_there refl),
              sealed,
              write_file_calm p stored [] false t (record w { draws = more }) calm empty,
            ),
        record {
          stored = stored;
          draws = more;
          result = refl;
          decodes = λ q w'.
              decode_enc b s key stored q w' keyed (can.crypt_there refl)
              ∙ (reader_on b (unsealed b key stored) (can.zstd_there refl)
                  ∙ ap ok (
                      ap (decompressed b.zstd) (unsealed_ok b key stored plain opened)
                      ∙ sound.restores bytes));
        },
      )

  pub encode_any :
      (f : Form)
      → CanWrite b s f
      → CanSeal b f bytes w
      → (after : World) × (encode b s (ok bytes) p f w ≡ (ok tt, after))
        × IsEncoded b s f bytes p t w after
  encode_any raw can ready = encode_raw
  encode_any zstd can ready = encode_zstd can
  encode_any enc can ready = encode_enc can ready
