-- ===== src/Store/Proven.antt =====
-- What reading an entry changes of the world, and what names a set-aside file, for src/store.rs.
use immure.Prelude.{
  ℕ, ◌≡◌, refl, ap, ◌∙◌, inl, inr, Text, Bool, true, Bool-cases, Option, none, some, Option-cases,
  List,
}
use immure.FilePath.{utf8, FilePath, file_name, to_str}
use immure.Digest.Types.{Digest}
use immure.Layout.{Form, raw, zstd, enc, parse_name, parse_quarantined}
use immure.World.{World}
use immure.Store.{Store}
use immure.Cipher.{Key}
use immure.Store.Codec.{Build, block_size, opens, decode, proving}
use immure.Store.Check.{name_text, named_at}

-- Decoding changes nothing of the world but whether the key is known to fit.
module _ (b : Build) (s : Store) where
  abbrev Proven : World → World → Type 0
  Proven w after = (flag : Bool) × (after ≡ record w { key_proven = flag })

  proving_world : (key : Key) (bytes : List ℕ) (w : World) → Proven w (proving b key bytes w)
  unfolding proving
  proving_world key bytes w = elim (Bool-cases (opens b block_size key bytes)) [
    | inl e ↦ (true, rw e refl)
    | inr e ↦ (w.key_proven, rw e refl)
  ]

  pub decode_world :
      (bytes : List ℕ) (f : Form) (p : FilePath) (w : World) → Proven w (decode b s bytes f p w).1
  unfolding decode
  decode_world bytes raw p w = (w.key_proven, refl)
  decode_world bytes zstd p w = (w.key_proven, refl)
  decode_world bytes enc p w = elim (Bool-cases b.features.crypt) [
    | inr off ↦ (w.key_proven, rw off refl)
    | inl on ↦ elim (Option-cases s.key) [
      | inl keyless ↦ (w.key_proven, rw (on, keyless) refl)
      | inr (key, keyed) ↦ elim (Bool-cases b.features.zstd) [
        | inl packs ↦
            let (flag, e) = proving_world key bytes w in
            let proved : (decode b s bytes enc p w).1 ≡ proving b key bytes w =
              rw (on, keyed, packs) refl in
            (flag, proved ∙ e)
        | inr plain ↦ (w.key_proven, rw (on, keyed, plain) refl)
      ]
    ]
  ]

pub named_aside :
    (s : Store) (p : FilePath) (name : Text) (d : Digest) (f : Form)
    → file_name p ≡ some (utf8 name)
    → parse_name s.layout name ≡ none
    → parse_quarantined s.layout name ≡ some (d, f)
    → named_at s p ≡ some (d, f)
unfolding named_at
named_aside s p name d f last no_entry parsed =
    let read : name_text p ≡ some name =
      ap (λ o. elim o as (λ _. Option Text) [ none ↦ none | some n ↦ to_str n ]) last in
    simp (named_at, read) (rw (no_entry, parsed) refl)
