-- ===== src/Store/Matching.antt =====
-- src/store.rs: the digests that begin with a prefix, out of the one shard they lie in.
pub mod Order
pub mod Found
use immure.Prelude.{
  ℕ, Text, text_eq, to_ascii_lowercase, is_ascii_hexdigit, all_of, Bool, true, false, not, ◌||◌,
  ◌&&◌, Option, none, some, List, [], ◌∷◌, ◌++◌, length, take, is_empty, ltb, ◌==◌, sort, dedup,
  if◌then◌else◌,
}
use immure.FilePath.{OsName, FilePath, to_str}
use immure.Error.{IoError, kind, Error, invalid_prefix, prefix_too_short, Result, ok, err}
use immure.Exec.{◌>>=◌, ◌>>◌, pure, raise}
use immure.Digest.Types.{Digest}
use immure.Layout.{Form, parse_name, shard_of}
use immure.World.{Node, World, Op, context}
use immure.World.Listing.{read_dir, next_item}
use immure.Temp.{answer_of}
use immure.Store.{Store, is_not_found, min_prefix}
use immure.Store.Check.{same_digest}

abbrev pub starts_with : Text → Text → Bool
starts_with t prefix = text_eq (take (length prefix) t) prefix

-- The order of `String`.
unfoldable pub text_ltb : Text → Text → Bool
text_ltb [] [] = false
text_ltb [] (d ∷ t) = true
text_ltb (c ∷ s) [] = false
text_ltb (c ∷ s) (d ∷ t) = ltb c d || (c == d && text_ltb s t)

abbrev pub digest_ltb : Digest → Digest → Bool
digest_ltb d e = text_ltb d.text e.text

abbrev pub chosen : Text → Option (Digest × Form) → Option Digest
chosen prefix none = none
chosen prefix (some (d, f)) = if starts_with d.text prefix then some d else none

unfoldable pub match_of : Store → Text → OsName → Option Digest
unfolding parse_name text_eq
match_of s prefix c = elim (to_str c) [
  | none ↦ none
  | some name ↦ chosen prefix (parse_name s.layout name)
]

abbrev pub gained : Option Digest → List Digest → List Digest
gained none found = found
gained (some d) found = found ++ d ∷ []

unfoldable pub collect_matches :
    Store → Text → List (OsName × Node) → List Digest → Op (List Digest)
unfolding next_item match_of
collect_matches s prefix [] found = pure found
collect_matches s prefix ((c, n) ∷ more) found = do
  item ← context (next_item c)
  collect_matches s prefix more (gained (match_of s prefix item) found)

abbrev pub arranged : List Digest → List Digest
arranged found = dedup same_digest (sort digest_ltb found)

abbrev in_listing : Store → Text → Result IoError (List (OsName × Node)) → Op (List Digest)
in_listing s prefix (err e) = if is_not_found (kind e) then pure [] else context (raise e)
in_listing s prefix (ok items) = do found ← collect_matches s prefix items []; pure (arranged found)

unfoldable pub matching : Store → Text → Op (List Digest)
unfolding shard_of read_dir collect_matches text_ltb sort dedup
matching s given =
    let prefix = to_ascii_lowercase given in
    let needed = min_prefix s in
    if is_empty prefix || not (all_of is_ascii_hexdigit prefix)
    then raise (invalid_prefix prefix)
    else if ltb (length prefix) needed
    then raise (prefix_too_short prefix s.layout.depth needed)
    else (do listing ← answer_of (read_dir (shard_of s.layout prefix)); in_listing s prefix listing)
