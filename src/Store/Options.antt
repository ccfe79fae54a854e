-- ===== src/Store/Options.antt =====
-- src/store.rs: the settings of a `Builder`, and what a store, an entry and a conversion say of
-- themselves. Getters that hand out one field are the fields of the records.
use immure.Prelude.{ℕ, Text, Bool, true, false, none, some, List, [], ◌∷◌, is_empty, if◌then◌else◌}
use immure.FilePath.{FilePath}
use immure.Error.{Result, Error}
use immure.Digest.Types.{Algorithm, sha256, Digest}
use immure.Digest.{Hashes, Hasher, hash, hasher as algorithm_hasher}
use immure.Layout.{
  default_suffix, is_compressed as form_is_compressed, is_encrypted as form_is_encrypted,
}
use immure.Cipher.{Key}
use immure.World.{Op}
use immure.Store.{
  Entry, Status, fresh, exists, Store, Builder, Features, build, create as create_built, form,
}
use immure.Store.Passes.{Failure, Conversion}

abbrev pub default_depth : ℕ
default_depth = 2

-- `Store::builder`
unfoldable pub builder : FilePath → Builder
builder root = record {
  root = root;
  suffix = default_suffix;
  depth = default_depth;
  algorithm = sha256;
  compress = false;
  create_root = true;
  key = none;
}

unfoldable pub suffix : Builder → Text → Builder
suffix b given = record b { suffix = given }

unfoldable pub depth : Builder → ℕ → Builder
depth b given = record b { depth = given }

unfoldable pub algorithm : Builder → Algorithm → Builder
algorithm b given = record b { algorithm = given }

unfoldable pub compress : Builder → Bool → Builder
compress b given = record b { compress = given }

unfoldable pub key : Builder → Key → Builder
key b given = record b { key = some given }

unfoldable pub create_root : Builder → Bool → Builder
create_root b create = record b { create_root = create }

-- `Store::open` and `Store::create`
unfoldable pub open_store : Features → FilePath → Result Error (Store × ℕ)
unfolding builder build
open_store f root = build f (builder root)

unfoldable pub create_store : Features → FilePath → Op (Store × ℕ)
unfolding builder
create_store f root = create_built f (builder root)

unfoldable pub encrypts : Store → Bool
unfolding form
encrypts s = form_is_encrypted (form s)

unfoldable pub compresses : Store → Bool
unfolding form
compresses s = form_is_compressed (form s)

unfoldable pub is_new : Status → Bool
is_new fresh = true
is_new exists = false

-- `is_compressed` and `is_encrypted` of `Entry` and of `Quarantined`.
unfoldable pub is_compressed : Entry → Bool
is_compressed e = form_is_compressed e.form

unfoldable pub is_encrypted : Entry → Bool
is_encrypted e = form_is_encrypted e.form

unfoldable pub unfinished_of : List Failure → List Failure
unfinished_of [] = []
unfinished_of (f ∷ fs) = let rest = unfinished_of fs in if f.recoverable then f ∷ rest else rest

unfoldable pub unfinished : Conversion → List Failure
unfolding unfinished_of
unfinished c = unfinished_of c.failed

unfoldable pub is_finished : Conversion → Bool
unfolding unfinished
is_finished c = is_empty (unfinished c)

module _ {S : Type 0} (h : Hashes S) where
  unfoldable pub digest : Store → List ℕ → Digest
  digest s bytes = hash h s.algorithm bytes

  unfoldable pub hasher : Store → Hasher S
  hasher s = algorithm_hasher h s.algorithm
