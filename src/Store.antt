-- ===== src/Store.antt =====
-- src/store.rs: a content-addressed store under one directory. `Store` is the handle's own state;
-- what its clones share (`first_form`, `key_proven`, the protection) stands in the `World`. The
-- parts that read, write, set aside and convert are in the children.
pub mod Laws
pub mod Search
pub mod Serials
pub mod Roots
pub mod Dirs
pub mod Adding
pub mod Stored
pub mod Present
pub mod Views
pub mod Contents
pub mod Proven
pub mod Returned
pub mod Removed
pub mod Built
pub mod Answers
pub mod RoundTrip
pub mod Paths
pub mod Content
pub mod Codec
pub mod Check
pub mod Make
pub mod Write
pub mod Aside
pub mod Convert
pub mod Walk
pub mod Matching
pub mod Prune
pub mod Prove
pub mod Passes
pub mod Options
use immure.Prelude.{
  ◌+◌, ℕ, ◌*◌, Text, Bool, true, false, not, ◌||◌, ◌&&◌, Option, none, some, List, [], ◌∷◌, ltb,
  ◌==◌, if◌then◌else◌,
}
use immure.FilePath.{FilePath, join}
use immure.Error.{
  ErrorKind, not_found, IoError, kind, Error, invalid_depth, compression_unavailable,
  encryption_unavailable, algorithm_mismatch, Result, ok, err,
}
use immure.Error
use immure.Exec.{◌>>=◌, ◌>>◌, pure, raise, lift, gets, modify}
use immure.Digest.Types.{Algorithm, hex_len, max_depth, Digest, len}
use immure.Layout.{
  Form, form_of, is_compressed, is_encrypted, with_others_after, as_u8, from_u8, Layout, layout,
  shard, entry_name, entry_path,
}
use immure.Cipher.{Key}
use immure.World.{Node, file, dir, special, World, Op, context, metadata, create_dir_all}
use immure.Temp.{answer_of}

-- An entry of a store, and one that was set aside (`Quarantined`), which has the same fields.
pub record Entry : Type 0 where
  pub digest : Digest
  pub path : FilePath
  pub form : Form

pub data Status : Type 0 where
  fresh exists : Status

pub record Store : Type 0 where
  pub layout : Layout
  pub algorithm : Algorithm
  pub compress : Bool
  pub key : Option Key
  pub creates_root : Bool

pub record Builder : Type 0 where
  pub root : FilePath
  pub suffix : Text
  pub depth : ℕ
  pub algorithm : Algorithm
  pub compress : Bool
  pub create_root : Bool
  pub key : Option Key

-- The features of a build.
pub record Features : Type 0 where
  pub zstd : Bool
  pub crypt : Bool

abbrev pub is_some : {A : Type 0} → Option A → Bool
is_some (some x) = true
is_some none = false

abbrev pub made : Builder → Store
made b = record {
  layout = layout b.root b.suffix b.depth;
  algorithm = b.algorithm;
  compress = b.compress;
  key = b.key;
  creates_root = b.create_root;
}

-- `Builder::build`, with the form that is tried first on the new store's look-ups.
unfoldable pub build : Features → Builder → Result Error (Store × ℕ)
unfolding form_of layout as_u8
build f b =
    let form = form_of b.compress (is_some b.key) in
    if ltb (max_depth b.algorithm) b.depth
    then err (invalid_depth b.depth b.algorithm (max_depth b.algorithm))
    else if is_compressed form && not f.zstd
    then err compression_unavailable
    else if is_encrypted form && not f.crypt
    then err encryption_unavailable
    else ok (made b, as_u8 form)

-- `Builder::create`
unfoldable pub create : Features → Builder → Op (Store × ℕ)
unfolding build create_dir_all
create f b = do store ← lift (build f b); context (create_dir_all b.root); pure store

-- `Store::form`, `Store::min_prefix`, `Store::own_digest`
unfoldable pub form : Store → Form
unfolding form_of
form s = form_of s.compress (is_some s.key)

abbrev pub min_prefix : Store → ℕ
min_prefix s = (s.layout.depth + 1) * 2

unfoldable pub own_digest : Store → Digest → Result Error (Unit {0})
own_digest s d =
    if len d == hex_len s.algorithm then ok tt else err (algorithm_mismatch d s.algorithm)

abbrev pub named : Store → Digest → FilePath → List Form → List (FilePath × Form)
named s d place [] = []
named s d place (f ∷ fs) = (join place (entry_name s.layout d f), f) ∷ named s d place fs

-- `Store::candidates`, `first` being the byte in `first_form`.
unfoldable pub candidates : Store → ℕ → Digest → Result Error (List (FilePath × Form))
unfolding own_digest shard with_others_after from_u8
candidates s first d = Error.◌>>=◌ (own_digest s d) λ _.
    Error.◌>>=◌ (shard s.layout d) λ place. ok (named s d place (with_others_after (from_u8 first)))

unfoldable pub learn : Form → Op (Unit {0})
unfolding as_u8
learn f = modify λ w. record w { first_form = as_u8 f }

abbrev pub is_not_found : ErrorKind → Bool
is_not_found not_found = true
is_not_found _ = false

-- One name looked under: a directory there is not an entry, and a miss is the answer.
abbrev pub looked :
    FilePath
    → Form
    → Op (Option (FilePath × Form))
    → Result IoError Node
    → Op (Option (FilePath × Form))
looked p f more (ok (file b r t)) = do learn f; pure (some (p, f))
looked p f more (ok dir) = more
looked p f more (ok special) = more
looked p f more (err e) = if is_not_found (kind e) then more else context (raise e)

unfoldable pub locate_in : List (FilePath × Form) → Op (Option (FilePath × Form))
unfolding metadata learn
locate_in [] = pure none
locate_in ((p, f) ∷ more) = do answer ← answer_of (metadata p); looked p f (locate_in more) answer

unfoldable pub locate : Store → Digest → Op (Option (FilePath × Form))
unfolding candidates locate_in
locate s d = do
  first ← gets (λ w. w.first_form)
  names ← lift (candidates s first d)
  locate_in names

abbrev pub path_of : Option (FilePath × Form) → Option FilePath
path_of (some (p, f)) = some p
path_of none = none

unfoldable pub find : Store → Digest → Op (Option FilePath)
unfolding locate
find s d = do there ← locate s d; pure (path_of there)

unfoldable pub contains : Store → Digest → Op Bool
unfolding find
contains s d = do path ← find s d; pure (is_some path)

unfoldable pub destination : Store → Digest → Result Error FilePath
unfolding own_digest entry_path form
destination s d = Error.◌>>=◌ (own_digest s d) λ _. entry_path s.layout d (form s)
