-- ===== src/Store/Walk.antt =====
-- src/store.rs: the walk over a store's files, `Entries`. Its state is the pile `dirs`, the last
-- directory seen on top; `ready` is handed over whole before the next directory is read.
pub mod Reached
pub mod Weight
pub mod Items
pub mod Listed
pub mod Loop
pub mod Below
pub mod Completes
use immure.Prelude.{
  ℕ, zero, suc, Text, text_eq, Bool, true, false, not, ◌&&◌, ◌⊎◌, inl, inr, Option, none, some,
  List, [], ◌∷◌, ◌++◌, if◌then◌else◌,
}
use immure.FilePath.{OsName, utf8, FilePath, name_eq, path_eq, to_str}
use immure.Error.{IoError, Error, io, Result, ok, err}
use immure.Exec.{◌>>=◌, ◌>>◌, pure, raise, lift}
use immure.Layout.{parse_name, parse_quarantined}
use immure.World.{Node, file, dir, special, World, Op}
use immure.World.Listing.{read_dir, next_item}
use immure.Temp.{temp_dir_name}
use immure.Store.{Entry, Store}
use immure.Store.Check.{entry_of}

pub data Walk : Type 0 where
  entries all set_aside : Walk

abbrev pub wants_entries : Walk → Bool
wants_entries entries = true
wants_entries all = true
wants_entries set_aside = false

abbrev pub wants_aside : Walk → Bool
wants_aside entries = false
wants_aside all = true
wants_aside set_aside = true

-- What an item of a listing comes to.
pub data Item : Type 0 where
  trouble : Error → Item
  folder : FilePath → Item
  yields : Entry → Item
  nothing : Item

unfoldable pub found_entry : Store → Walk → FilePath → Text → Option Entry
unfolding parse_name parse_quarantined
found_entry s walk p name =
    elim (if wants_entries walk then entry_of p (parse_name s.layout name) else none) [
      | some e ↦ some e
      | none ↦ if wants_aside walk then entry_of p (parse_quarantined s.layout name) else none
    ]

abbrev pub yielded : Option Entry → Item
yielded (some e) = yields e
yielded none = nothing

abbrev pub named : Store → Walk → FilePath → Option Text → Item
named s walk p none = nothing
named s walk p (some name) = yielded (found_entry s walk p name)

-- `tmp` directly under the root holds half-written entries and is left out.
abbrev pub is_temp_dir : Store → FilePath → OsName → Bool
is_temp_dir s p c = path_eq p s.layout.root && name_eq c (utf8 temp_dir_name)

unfoldable pub item_of : Store → Walk → FilePath → OsName → Node → Item
unfolding path_eq name_eq found_entry
item_of s walk p c dir = if is_temp_dir s p c then nothing else folder (p ++ c ∷ [])
item_of s walk p c (file b r t) = named s walk (p ++ c ∷ []) (to_str c)
item_of s walk p c special = named s walk (p ++ c ∷ []) (to_str c)

abbrev typed : Store → Walk → FilePath → OsName → Node → Result IoError Node → Item
typed s walk p c n (err e) = trouble (io e)
typed s walk p c n (ok m) = item_of s walk p c m

-- The item itself may fail, and then its type.
unfoldable pub read_item : Store → Walk → FilePath → OsName → Node → World → Item × World
unfolding next_item item_of
read_item s walk p c n w =
    let item = next_item n w in
    elim item.0 [
      | err e ↦ (trouble (io e), item.1)
      | ok m ↦ let kind = next_item m item.1 in (typed s walk p c m kind.0, kind.1)
    ]

abbrev pub pushed : Item → List FilePath → List FilePath
pushed (folder q) pile = q ∷ pile
pushed (trouble e) pile = pile
pushed (yields e) pile = pile
pushed nothing pile = pile

abbrev pub in_front : Item → List (Result Error Entry) → List (Result Error Entry)
in_front (trouble e) found = err e ∷ found
in_front (yields e) found = ok e ∷ found
in_front (folder q) found = found
in_front nothing found = found

-- The pile and `ready` after a directory was read.
abbrev pub Loaded : Type 0
Loaded = List FilePath × List (Result Error Entry)

unfoldable pub load_items :
    Store → Walk → FilePath → List (OsName × Node) → List FilePath → World → Loaded × World
unfolding read_item
load_items s walk p [] pile w = ((pile, []), w)
load_items s walk p ((c, n) ∷ more) pile w =
    let read = read_item s walk p c n w in
    let rest = load_items s walk p more (pushed read.0 pile) read.1 in
    ((rest.0.0, in_front read.0 rest.0.1), rest.1)

-- `Entries::load`
unfoldable pub load : Store → Walk → FilePath → List FilePath → World → Loaded × World
unfolding read_dir load_items
load s walk p pile w =
    let listing = read_dir p w in
    elim listing.0 [
      | err e ↦ ((pile, err (io e) ∷ []), listing.1)
      | ok items ↦ load_items s walk p items pile listing.1
    ]

-- A loop over `Entries`: `body` takes what `next` hands out from one directory and goes on, or
-- leaves the loop. `none` is a walk that was not over after so many directories.
module _ {A R : Type 0} (s : Store) (walk : Walk)
    (body : A → List (Result Error Entry) → Op (A ⊎ R)) where
  abbrev gone_on : (A → Op (Option (A ⊎ R))) → A ⊎ R → Op (Option (A ⊎ R))
  gone_on more (inl a) = more a
  gone_on more (inr r) = pure (some (inr r))

  unfoldable pub walk_loop : ℕ → A → List FilePath → Op (Option (A ⊎ R))
  unfolding load
  walk_loop zero a pile w = (ok none, w)
  walk_loop (suc rounds) a [] w = (ok (some (inl a)), w)
  walk_loop (suc rounds) a (p ∷ pile) w =
      let loaded = load s walk p pile w in
      (body a loaded.0.1 >>= gone_on (λ a'. walk_loop rounds a' loaded.0.0)) loaded.1

  -- `Entries::new`
  unfoldable pub walk_from : ℕ → A → Op (Option (A ⊎ R))
  unfolding walk_loop
  walk_from rounds a = walk_loop rounds a (s.layout.root ∷ [])

-- `Store::entries` and `Store::quarantined`, read to their end.
abbrev pub gather :
    List (Result Error Entry)
    → List (Result Error Entry)
    → Op (List (Result Error Entry) ⊎ Unit {0})
gather found ready = pure (inl (found ++ ready))

abbrev pub completed : {A : Type 0} → Option (A ⊎ Unit {0}) → Option A
completed none = none
completed (some (inl a)) = some a
completed (some (inr r)) = none

unfoldable pub all_entries : Walk → ℕ → Store → Op (Option (List (Result Error Entry)))
unfolding walk_from
all_entries walk rounds s = do over ← walk_from s walk gather rounds []; pure (completed over)
