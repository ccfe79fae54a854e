-- ===== src/Layout.antt =====
-- src/layout.rs: the map from a digest to a path, and back. The laws are in the children.
pub mod Dots
pub mod Names
pub mod Aside
use immure.Prelude.{
  ℕ, Text, codes, text_eq, trim, strip_suffix, rsplit_once, decimal, is_ascii_digit, Bool, true,
  false, not, ◌||◌, ◌&&◌, Option, none, some, List, [], ◌∷◌, ◌++◌, map, is_empty, all_of, take,
  drop, ◌==◌, if◌then◌else◌,
}
use immure.FilePath.{FilePath, utf8, join}
use immure.Error.{Error, Result, ok, err, ◌>>=◌}
use immure.Digest.Types.{Digest}
use immure.Digest.{parse, shards, pieces}

abbrev pub default_suffix : Text
default_suffix = codes ".dat"

abbrev pub quarantine_suffix : Text
quarantine_suffix = codes ".corrupt"

-- `SUFFIX` of src/compress.rs and of src/crypt.rs.
abbrev pub zst_suffix : Text
zst_suffix = codes ".zst"

abbrev pub enc_suffix : Text
enc_suffix = codes ".enc"

pub data Form : Type 0 where
  raw zstd enc : Form

-- `Form::of`
unfoldable pub form_of : Bool → Bool → Form
form_of compress true = enc
form_of true false = zstd
form_of false false = raw

abbrev pub is_compressed : Form → Bool
is_compressed raw = false
is_compressed zstd = true
is_compressed enc = true

abbrev pub is_encrypted : Form → Bool
is_encrypted raw = false
is_encrypted zstd = false
is_encrypted enc = true

unfoldable pub with_others_after : Form → List Form
with_others_after raw = raw ∷ zstd ∷ enc ∷ []
with_others_after zstd = zstd ∷ enc ∷ raw ∷ []
with_others_after enc = enc ∷ zstd ∷ raw ∷ []

unfoldable pub as_u8 : Form → ℕ
as_u8 raw = 0
as_u8 zstd = 1
as_u8 enc = 2

unfoldable pub from_u8 : ℕ → Form
from_u8 value = if value == 1 then zstd else if value == 2 then enc else raw

pub record Layout : Type 0 where
  pub root : FilePath
  pub suffix : Text
  pub depth : ℕ
  pub compressed_suffix : Text
  pub sealed_suffix : Text

unfoldable pub normalise_suffix : Text → Text
unfolding trim text_eq
normalise_suffix suffix =
    let trimmed = trim suffix in
    if is_empty trimmed || text_eq trimmed (codes ".")
    then []
    else if text_eq (take 1 trimmed) (codes ".")
    then trimmed
    else b'.' ∷ trimmed

-- `Layout::new`
unfoldable pub layout : FilePath → Text → ℕ → Layout
layout root given depth =
    let suffix = normalise_suffix given in
    let compressed_suffix = suffix ++ zst_suffix in
    record {
      root = root;
      suffix = suffix;
      depth = depth;
      compressed_suffix = compressed_suffix;
      sealed_suffix = compressed_suffix ++ enc_suffix;
    }

unfoldable pub shard : Layout → Digest → Result Error FilePath
shard l d = do parts ← shards d l.depth; ok (l.root ++ map utf8 parts)

unfoldable pub shard_of : Layout → Text → FilePath
shard_of l prefix = l.root ++ map utf8 (pieces prefix 0 l.depth)

-- `Layout::file_name`
unfoldable pub entry_name : Layout → Digest → Form → Text
entry_name l d form =
    let name = d.text ++ l.suffix in
    let name' = if is_compressed form then name ++ zst_suffix else name in
    if is_encrypted form then name' ++ enc_suffix else name'

-- `Layout::path`
unfoldable pub entry_path : Layout → Digest → Form → Result Error FilePath
unfolding shard
entry_path l d form = do dir ← shard l d; ok (join dir (entry_name l d form))

-- `Digest::parse(stem).ok().map(|digest| (digest, form))`
abbrev pub with_form : Result Error Digest → Form → Option (Digest × Form)
with_form (ok d) form = some (d, form)
with_form (err e) form = none

unfoldable pub parse_name : Layout → Text → Option (Digest × Form)
parse_name l name = elim (strip_suffix name l.sealed_suffix) [
  | some stem ↦ with_form (parse stem) enc
  | none ↦ elim (strip_suffix name l.compressed_suffix) [
    | some stem ↦ with_form (parse stem) zstd
    | none ↦ elim (strip_suffix name l.suffix) [
      | some stem ↦ with_form (parse stem) raw
      | none ↦ none
    ]
  ]
]

-- The entry's name under a quarantined one, numbered or not.
unfoldable pub set_aside_name : Text → Option Text
set_aside_name name = elim (strip_suffix name quarantine_suffix) [
  | some entry ↦ some entry
  | none ↦ elim (rsplit_once name b'.') [
    | none ↦ none
    | some (head, serial) ↦
        if is_empty serial || not (all_of is_ascii_digit serial)
        then none
        else strip_suffix head quarantine_suffix
  ]
]

unfoldable pub parse_quarantined : Layout → Text → Option (Digest × Form)
unfolding set_aside_name
parse_quarantined l name = elim (set_aside_name name) [
  | none ↦ none
  | some entry ↦ parse_name l entry
]

unfoldable pub quarantine_name : Text → ℕ → Text
quarantine_name name serial =
    if serial == 0
    then name ++ quarantine_suffix
    else name ++ quarantine_suffix ++ codes "." ++ decimal serial
