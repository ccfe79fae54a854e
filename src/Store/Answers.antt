-- ===== src/Store/Answers.antt =====
-- What the operations of src/store.rs answer where an entry was found, or none.
use immure.Prelude.{
  ℕ, Text, ◌*◌, ◌≤◌, ◌≡◌, refl, ap, ◌∙◌, true, Option, none, some, List, [], text_eq_iff,
}
use immure.FilePath.{FilePath, utf8, file_name, file_name-join, to_str}
use immure.Error.{ok, ctx}
use immure.Digest.Types.{Digest, hex_len, len}
use immure.Digest.{Hashes, hash}
use immure.Digest.Parse.{IsDigest}
use immure.Layout.{Form, entry_name, parse_name, with_others_after, from_u8}
use immure.Layout.Names.{IsLayout, parse_name-entry_name}
use immure.World.{at, World, read_file}
use immure.Store.{Store, form, fresh, exists, Entry, locate, find}
use immure.Store.Codec.{Build, decode}
use immure.Store.Check.{
  open_entry, read, reader_at, named_at, name_text, digest_of, content_matches, verify,
}
use immure.Store.Write.{write, add}
use immure.Store.Laws.{own_length}
use immure.Store.Paths.{folder_of, path_of_form}
use immure.Store.Adding.{dest_of}
use immure.Store.Search.{locate_lem}
use immure.Store.Present.{candidates_lem, first_file-none}

-- Nothing is found where nothing lies.
pub locate-none :
    (s : Store) (d : Digest) (w : World)
    → w.script ≡ []
    → len d ≡ hex_len s.algorithm
    → s.layout.depth * 2 ≤ len d
    → ((f : Form) → at (path_of_form s.layout d f) w.fs ≡ none)
    → locate s d w ≡ (ok none, w)
locate-none s d w calm own deep absent =
    locate_lem s d w _ calm (candidates_lem s w.first_form d own deep)
    ∙ rw (first_file-none s d w.fs (with_others_after (from_u8 w.first_form)) absent) refl

module _ {S : Type 0} (h : Hashes S) (b : Build) (s : Store) where
  abbrev pub entry_for : Digest → Entry
  entry_for d = record { digest = d; path = dest_of h b s d; form = form s }

  pub add_fresh :
      (bytes : List ℕ) (w after : World)
      → locate s (hash h s.algorithm bytes) w ≡ (ok none, w)
      → write h b s (hash h s.algorithm bytes) bytes w
        ≡ (ok (dest_of h b s (hash h s.algorithm bytes)), after)
      → add h b s bytes w ≡ (ok (fresh, entry_for (hash h s.algorithm bytes)), after)
  unfolding add
  add_fresh bytes w after free run = rw (free, run) refl

  pub add_known :
      (bytes : List ℕ) (w after : World) (p : FilePath) (f : Form)
      → locate s (hash h s.algorithm bytes) w ≡ (ok (some (p, f)), after)
      → add h b s bytes w
        ≡ (ok (exists, record { digest = hash h s.algorithm bytes; path = p; form = f }), after)
  unfolding add
  add_known bytes w after p f found = rw found refl

  pub read_known :
      (d : Digest) (bytes stored : List ℕ) (f : Form) (p : FilePath) (w after : World)
      → open_entry h b s d w ≡ (ok (some (stored, f, p)), after)
      → ((q : FilePath) (w : World) → (decode b s stored f q w).0 ≡ ok (ok bytes))
      → (read h b s d w).0 ≡ ok (some bytes)
  unfolding read ctx
  read_known d bytes stored f p w after found decodes = rw (found, decodes p after) refl

  pub find_known :
      (d : Digest) (p : FilePath) (f : Form) (w after : World)
      → locate s d w ≡ (ok (some (p, f)), after)
      → (find s d w).0 ≡ ok (some p)
  unfolding find
  find_known d p f w after found = rw found refl

  named_of :
      (p : FilePath) (name : Text) (x : Digest × Form)
      → file_name p ≡ some (utf8 name)
      → parse_name s.layout name ≡ some x
      → named_at s p ≡ some x
  unfolding named_at
  named_of p name x last parsed =
      let read : name_text p ≡ some name =
        ap (λ o. elim o as (λ _. Option Text) [ none ↦ none | some n ↦ to_str n ]) last in
      simp (named_at, read) (rw parsed refl)

  pub named_there :
      (d : Digest) (f : Form)
      → IsLayout s.layout
      → IsDigest d
      → named_at s (path_of_form s.layout d f) ≡ some (d, f)
  named_there d f names valid =
      named_of (path_of_form s.layout d f) (entry_name s.layout d f) (d, f)
        (file_name-join (folder_of s.layout d) (entry_name s.layout d f))
        (parse_name-entry_name s.layout d f names valid)

  pub digest_known :
      (d : Digest) (f : Form) (p : FilePath) (bytes stored : List ℕ) (w : World)
      → read_file p w ≡ (ok stored, w)
      → named_at s p ≡ some (d, f)
      → ((q : FilePath) (w : World) → (decode b s stored f q w).0 ≡ ok (ok bytes))
      → (digest_of h b s p w).0 ≡ ok (hash h s.algorithm bytes)
  unfolding digest_of reader_at ctx
  digest_known d f p bytes stored w loaded known decodes = rw (loaded, known, decodes p w) refl

  pub verify_known :
      (e : Entry) (w : World)
      → len e.digest ≡ hex_len s.algorithm
      → (digest_of h b s e.path w).0 ≡ ok e.digest
      → (verify h b s e w).0 ≡ ok true
  unfolding verify content_matches
  verify_known e w own found =
      rw (own_length s e.digest own, found, (text_eq_iff e.digest.text e.digest.text).1 refl) refl
