-- ===== src/Store/Contents.antt =====
-- What a store of src/store.rs holds, as its readers see it: for each digest the content under it,
-- if any. `Store::add` inserts into it.
use immure.Prelude.{
  ℕ, ◌≡◌, ap, sym, ◌∙◌, Text, text_eq, text_eq_iff, false, Bool-cases, inl, inr, Option, some, List,
  if◌then◌else◌, arith,
}
use mathlib.Core.Path.{subst}
use immure.FilePath.{utf8, file_name, file_name-join}
use immure.Error.{ok}
use immure.Digest.Types.{Digest, hex_len, len}
use immure.Digest.{Hashes, hash}
use immure.Digest.Parse.{IsDigest}
use immure.Digest.Hashing.{IsHashes}
use immure.Layout.{Form, Layout, entry_name}
use immure.Layout.Names.{IsLayout, entry_name_injective}
use immure.World.{World}
use immure.Cipher.Opener.Chunks.{IsAead}
use immure.Store.{Builder, Store, build, form, fresh}
use immure.Store.Codec.{Build}
use immure.Store.Check.{same_digest, read}
use immure.Store.Content.{IsZstd, CanSeal}
use immure.Store.Write.{add}
use immure.Store.Paths.{folder_of, path_of_form}
use immure.Store.Adding.{IsReady}
use immure.Store.Built.{names_of, deep_enough, long_hex}
use immure.Store.Views.{read_same}
use immure.Store.Answers.{entry_for}
use immure.Store.RoundTrip.{add-IsStored, stored_read, valid}

abbrev pub Contents : Type 0
Contents = Digest → Option (List ℕ)

unfoldable pub insert_content : Digest → List ℕ → Contents → Contents
insert_content d bytes contents e = if same_digest d e then some bytes else contents e

-- Every digest of the store's algorithm is read as the contents say.
abbrev pub IsView : {S : Type 0} → Hashes S → Build → Store → Contents → World → Type 0
IsView h b s contents w =
    (d : Digest) → IsDigest d → len d ≡ hex_len s.algorithm → (read h b s d w).0 ≡ ok (contents d)

abbrev digest_of_text : Text → Digest
digest_of_text t = record { text = t }

same_text : (d e : Digest) → d.text ≡ e.text → d ≡ e
same_text d e same = ap digest_of_text same

name_at_end : (a b : Text) → some (utf8 a) ≡ some (utf8 b) → a ≡ b
name_at_end a b e = cc

abbrev text_of : Digest → Text
text_of d = d.text

differ : (d e : Digest) → text_eq d.text e.text ≡ false → d.text ≡ e.text → ⊥
differ d e other same = ground (arith, other, (text_eq_iff d.text e.text).1 same)

-- Different digests have different paths.
paths_apart :
    (l : Layout) (d e : Digest) (f g : Form)
    → IsLayout l
    → IsDigest d
    → IsDigest e
    → path_of_form l d f ≡ path_of_form l e g
    → d ≡ e
paths_apart l d e f g names valid_d valid_e same =
    (entry_name_injective l d e f g names valid_d valid_e (
      name_at_end (entry_name l d f) (entry_name l e g) (
        sym (file_name-join (folder_of l d) (entry_name l d f))
        ∙ (ap file_name same ∙ file_name-join (folder_of l e) (entry_name l e g))))).0

module _ {S : Type 0} (h : Hashes S) (hashes : IsHashes h) (b : Build) (sound : IsZstd b.zstd)
    (laws : IsAead b.aead) (bld : Builder) (s : Store) (first : ℕ)
    (run : build b.features bld ≡ ok (s, first)) (bytes : List ℕ) where
  -- For a store that `build` made, hash functions, a zstd and a cipher that do what they
  -- document, a content short enough to seal with a nonce to draw, and a world in which
  -- nothing is in the way of a new entry (IsReady) and every digest reads as an abstract map
  -- from digests to contents says: `add` of the content answers that it is new, and afterwards
  -- every digest of the store's algorithm reads as the map says into which the content was
  -- inserted under its hash.
  pub add-insert_content :
      (contents : Contents) (w : World)
      → CanSeal b (form s) bytes w
      → IsReady b s (hash h s.algorithm bytes) w
      → IsView h b s contents w
      → (after : World) × (add h b s bytes w
          ≡ (ok (fresh, entry_for h b s (hash h s.algorithm bytes)), after))
        × IsView h b s (insert_content (hash h s.algorithm bytes) bytes contents) after
  unfolding insert_content
  add-insert_content contents w seals ready view =
      let d = hash h s.algorithm bytes in
      let (after, run_add, done) =
        add-IsStored h hashes b sound laws bld s first run bytes w seals ready in
      (
        after,
        run_add,
        λ e valid_e own_e. elim (Bool-cases (text_eq d.text e.text)) [
          | inl same ↦ rw same (
              subst (λ e. (read h b s e after).0 ≡ ok (some bytes))
                (same_text d e ((text_eq_iff d.text e.text).0 same))
                (stored_read h hashes b sound laws bld s first run bytes w after done))
          | inr other ↦ rw other (
              read_same h b s e after w done.calm ready.calm
                (λ f. done.others e f (omega (arith, own_e, long_hex s.algorithm)) (λ same.
                  differ d e other (
                    ap text_of (
                      paths_apart s.layout d e (form s) f (names_of b bld s first run)
                        (valid h hashes b sound laws bld s first run bytes) valid_e same))))
                done.first_same own_e (deep_enough b bld s first run e own_e)
              ∙ view e valid_e own_e)
        ],
      )
