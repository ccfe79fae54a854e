-- ===== src/Tests/Names.antt =====
-- src/digest.rs, src/layout.rs and src/temp.rs on small names.
use immure.Prelude.{
  ◌↔◌, ℕ, ◌+◌, ◌*◌, ◌≤◌, ◌<◌, ◌≡◌, refl, ◌⊎◌, inl, inr, Text, codes, to_ascii_lowercase, take, All,
  length, concat, true, none, some, List, [], ◌∷◌, ◌++◌, arith,
}
use immure.FilePath.{utf8}
use immure.Error.{ok, err, digest_too_short}
use immure.Digest.Types.{sha256, hex_len, Digest, len}
use immure.Digest.{parse, shards, hasher, finish, hash}
use immure.Digest.Parse.{IsDigest, parse-IsDigest, parse_complete, HasTwo, shards_lem}
use immure.Digest.Hex.{to_hex_injective}
use immure.Digest.Hashing.{hash-IsDigest, update_all, print_of, finish-update_all}
use immure.Layout.{
  normalise_suffix, zstd, enc, Layout, layout, entry_name, parse_name, parse_quarantined,
  quarantine_name,
}
use immure.Layout.Names.{
  IsLayout, layout-IsLayout, ReadsAs, parse_name-entry_name, parse_name-ReadsAs,
  entry_name_injective,
}
use immure.Layout.Aside.{
  parse_quarantined-quarantine_name, quarantine_name_injective, parse_name_of_quarantined,
}
use immure.Temp.{is_temp_name}
use immure.Temp.Names.{IsTempName, is_temp_name_iff, temp_name_injective}
use immure.Tests.Toys.{length_hashes, length_hashes-IsHashes}

abbrev small : Digest
small = record { text = codes "ab12" }

small-IsDigest : IsDigest small
small-IsDigest = record {
  nonempty = omega arith;
  even = refl;
  hex = (inr (omega arith), (inr (omega arith), (inl (omega arith), (inl (omega arith), tt))));
}

json : Layout
json = layout (utf8 (codes "store") ∷ []) (codes "json") 1

json-IsLayout : IsLayout json
unfolding json
json-IsLayout = layout-IsLayout (utf8 (codes "store") ∷ []) (codes "json") 1

sealed_name : entry_name json small enc ≡ codes "ab12.json.zst.enc"
unfolding json layout entry_name normalise_suffix
sealed_name = refl

layout-IsLayout_example : IsLayout (layout (utf8 (codes "store") ∷ []) (codes ".json") 1)
layout-IsLayout_example = layout-IsLayout (utf8 (codes "store") ∷ []) (codes ".json") 1

parse_name-entry_name_example : parse_name json (entry_name json small enc) ≡ some (small, enc)
parse_name-entry_name_example = parse_name-entry_name json small enc json-IsLayout small-IsDigest

parse_name-ReadsAs_example : ReadsAs json (entry_name json small zstd) small zstd
parse_name-ReadsAs_example =
    parse_name-ReadsAs json (entry_name json small zstd) small zstd
      (parse_name-entry_name json small zstd json-IsLayout small-IsDigest)

entry_name_injective_example : (small ≡ small) × (zstd ≡ zstd)
entry_name_injective_example =
    entry_name_injective json small small zstd zstd json-IsLayout small-IsDigest small-IsDigest refl

parse_quarantined-quarantine_name_example :
    parse_quarantined json (quarantine_name (entry_name json small enc) 3) ≡ some (small, enc)
parse_quarantined-quarantine_name_example =
    parse_quarantined-quarantine_name json small enc 3 json-IsLayout small-IsDigest

quarantine_name_injective_example : 2 ≡ 1 + 1
quarantine_name_injective_example = quarantine_name_injective (codes "ab12.json") 2 (1 + 1) refl

parse_name_of_quarantined_example :
    parse_name json (quarantine_name (entry_name json small enc) 3) ≡ none
parse_name_of_quarantined_example =
    parse_name_of_quarantined json (quarantine_name (entry_name json small enc) 3) small enc
      json-IsLayout
      (parse_quarantined-quarantine_name json small enc 3 json-IsLayout small-IsDigest)

parsed : parse (codes "AB12") ≡ ok small
unfolding parse
parsed = refl

parse-IsDigest_example : IsDigest small × (small.text ≡ to_ascii_lowercase (codes "AB12"))
parse-IsDigest_example = parse-IsDigest (codes "AB12") small parsed

parse_complete_example : parse (codes "Ab12") ≡ ok small
parse_complete_example = parse_complete (codes "Ab12") small small-IsDigest refl

shards_lem_example :
    ((ps : List Text) × (shards small 1 ≡ ok ps)
      × (1 * 2 ≤ len small)
      × (length ps ≡ 1)
      × All HasTwo ps
      × (concat ps ≡ take (1 * 2) small.text))
    ⊎ ((shards small 1 ≡ err (digest_too_short small 1 (1 * 2))) × (len small < 1 * 2))
shards_lem_example = shards_lem small 1

abbrev two_bytes : List ℕ
two_bytes = 171 ∷ 18 ∷ []

to_hex_injective_example : two_bytes ≡ two_bytes
to_hex_injective_example =
    to_hex_injective two_bytes two_bytes (omega arith, (omega arith, tt))
      (omega arith, (omega arith, tt)) refl

hash-IsDigest_example :
    IsDigest (hash length_hashes sha256 (1 ∷ 2 ∷ []))
    × (len (hash length_hashes sha256 (1 ∷ 2 ∷ [])) ≡ hex_len sha256)
hash-IsDigest_example = hash-IsDigest length_hashes length_hashes-IsHashes sha256 (1 ∷ 2 ∷ [])

finish-update_all_example :
    (hash length_hashes sha256 ((1 ∷ []) ++ concat ((2 ∷ []) ∷ []))
      ≡ print_of length_hashes length_hashes-IsHashes sha256 ((1 ∷ []) ++ concat ((2 ∷ []) ∷ [])))
    × (finish length_hashes (
          update_all length_hashes length_hashes-IsHashes
            (hasher length_hashes sha256)
            ((1 ∷ []) ∷ (2 ∷ []) ∷ []))
        ≡ print_of length_hashes length_hashes-IsHashes sha256 ((1 ∷ []) ++ concat ((2 ∷ []) ∷ [])))
finish-update_all_example =
    finish-update_all length_hashes length_hashes-IsHashes sha256 (1 ∷ []) ((2 ∷ []) ∷ [])

is_temp_name_iff_example : (is_temp_name (codes "12-0.tmp") ≡ true) ↔ IsTempName (codes "12-0.tmp")
is_temp_name_iff_example = is_temp_name_iff (codes "12-0.tmp")

abbrev some_pid : ℕ
some_pid = 12

temp_name_injective_example : (some_pid ≡ some_pid) × (1 + 1 ≡ 2)
temp_name_injective_example = temp_name_injective some_pid (1 + 1) some_pid 2 refl
