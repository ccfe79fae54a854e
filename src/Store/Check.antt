-- ===== src/Store/Check.antt =====
-- src/store.rs: reading an entry, and holding one against its name. A file is read whole.
use immure.Prelude.{
  true, false, not, ℕ, Text, codes, text_eq, Bool, false, Option, none, some, List, [], ◌∷◌, take,
  length, if◌then◌else◌, ◌||◌,
}
use immure.FilePath.{FilePath, file_name, to_str}
use immure.Error.{
  io, IoError, os, wrapped, kind, Error, damaged, unsealable, Result, ok, err, contextualise,
}
use immure.Exec.{◌>>=◌, ◌>>◌, pure, raise, lift, gets}
use immure.Digest.Types.{Digest}
use immure.Digest.{Hashes, hash}
use immure.Layout.{Form, parse_name, parse_quarantined}
use immure.World.{Op, context, read_file}
use immure.Temp.{answer_of}
use immure.Store.{Entry, Store, is_not_found, learn, candidates, own_digest}
use immure.Store.Codec.{Build, decode}

-- `Path::file_name` and `to_str`
abbrev pub name_text : FilePath → Option Text
name_text p = elim (file_name p) [ none ↦ none | some n ↦ to_str n ]

-- `Store::named_at`
unfoldable pub named_at : Store → FilePath → Option (Digest × Form)
unfolding parse_name parse_quarantined
named_at s p = elim (name_text p) [
  | none ↦ none
  | some name ↦ elim (parse_name s.layout name) [
    | some found ↦ some found
    | none ↦ parse_quarantined s.layout name
  ]
]

abbrev pub entry_of : FilePath → Option (Digest × Form) → Option Entry
entry_of p (some (d, f)) = some (record { digest = d; path = p; form = f })
entry_of p none = none

-- `Store::entry_at`, `Store::quarantined_at`
unfoldable pub entry_at : Store → FilePath → Option Entry
unfolding parse_name
entry_at s p = elim (name_text p) [
  | none ↦ none
  | some name ↦ entry_of p (parse_name s.layout name)
]

unfoldable pub quarantined_at : Store → FilePath → Option Entry
unfolding parse_quarantined
quarantined_at s p = elim (name_text p) [
  | none ↦ none
  | some name ↦ entry_of p (parse_quarantined s.layout name)
]

-- `err.to_string().contains(..)`
unfoldable pub contains : Text → Text → Bool
unfolding text_eq
contains [] t = text_eq [] t
contains (c ∷ s) t = text_eq (take (length t) (c ∷ s)) t || contains s t

unfoldable pub out_of_memory : IoError → Bool
unfolding contains
out_of_memory (os k m) = contains m (codes "not enough memory")
out_of_memory (wrapped e) = false

-- `Error::Io { .. } if damaged => Err(Error::Damaged)`
abbrev blamed : Bool → Error → Error
blamed true (io e) = damaged
blamed true e = e
blamed false e = e

-- An error of a decoder over a file that was read whole, so that the file itself did not fail.
unfoldable pub hashing_error : IoError → Error
unfolding contextualise out_of_memory
hashing_error e = blamed (not (out_of_memory e)) (contextualise e)

abbrev pub form_or_raw : Option (Digest × Form) → Form
form_or_raw (some (d, f)) = f
form_or_raw none = Form.raw

abbrev pub same_digest : Digest → Digest → Bool
same_digest d e = text_eq d.text e.text

module _ {S : Type 0} (h : Hashes S) (b : Build) where
  -- `Store::reader_watched`: the file, taken for what its name says.
  unfoldable pub reader_at : Store → FilePath → Op (Result IoError (List ℕ))
  unfolding read_file decode named_at
  reader_at s p = do bytes ← context (read_file p); decode b s bytes (form_or_raw (named_at s p)) p

  abbrev hashed : Store → Result IoError (List ℕ) → Result Error Digest
  hashed s (ok bytes) = ok (hash h s.algorithm bytes)
  hashed s (err e) = err (hashing_error e)

  unfoldable pub digest_of : Store → FilePath → Op Digest
  unfolding reader_at hashing_error
  digest_of s p = do content ← reader_at s p; lift (hashed s content)

  abbrev pub judged : Bool → Digest → Result Error Digest → Result Error Bool
  judged proven expected (ok actual) = ok (same_digest actual expected)
  judged proven expected (err damaged) = ok false
  judged proven expected (err unsealable) = if proven then ok false else err unsealable
  judged proven expected (err e) = err e

  unfoldable pub content_matches : Store → FilePath → Digest → Op Bool
  unfolding digest_of
  content_matches s p expected w =
      let found = digest_of s p w in (judged found.1.key_proven expected found.0, found.1)

  unfoldable pub verify : Store → Entry → Op Bool
  unfolding own_digest content_matches
  verify s e = do lift (own_digest s e.digest); content_matches s e.path e.digest

  abbrev opened :
      FilePath
      → Form
      → Op (Option (List ℕ × Form × FilePath))
      → Result IoError (List ℕ)
      → Op (Option (List ℕ × Form × FilePath))
  opened p f more (ok bytes) = do learn f; pure (some (bytes, f, p))
  opened p f more (err e) = if is_not_found (kind e) then more else context (raise e)

  unfoldable pub open_in : List (FilePath × Form) → Op (Option (List ℕ × Form × FilePath))
  unfolding read_file learn
  open_in [] = pure none
  open_in ((p, f) ∷ more) = do answer ← answer_of (read_file p); opened p f (open_in more) answer

  unfoldable pub open_entry : Store → Digest → Op (Option (List ℕ × Form × FilePath))
  unfolding candidates open_in
  open_entry s d = do
    first ← gets (λ w. w.first_form)
    names ← lift (candidates s first d)
    open_in names

  abbrev pub read_of : Store → Option (List ℕ × Form × FilePath) → Op (Option (List ℕ))
  read_of s none = pure none
  read_of s (some (bytes, f, p)) = do
    content ← decode b s bytes f p
    plain ← context (lift content)
    pure (some plain)

  -- `Store::read`, the reader of `Store::reader` being read to its end.
  unfoldable pub read : Store → Digest → Op (Option (List ℕ))
  unfolding open_entry decode
  read s d = do there ← open_entry s d; read_of s there

  unfoldable pub read_at : Store → FilePath → Op (List ℕ)
  unfolding reader_at
  read_at s p = do content ← reader_at s p; context (lift content)
