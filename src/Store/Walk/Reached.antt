-- ===== src/Store/Walk/Reached.antt =====
-- What the items of a directory lead to, for a walk of src/store.rs, and what reading a directory finds.
use immure.Prelude.{
  Text, ◌≡◌, refl, ap, ◌∙◌, inl, inr, Bool-cases, Option, none, some, Option-cases, List, [], ◌∷◌,
  ◌++◌, map,
}
use mathlib.Core.List.{Memᴰ}
use immure.FilePath.{OsName, FilePath, to_str}
use immure.Error.{ok}
use immure.World.{Node, file, dir, special, Fs, at, World, sys, meet}
use immure.World.Listed.{read_dir_calm}
use immure.World.Listing.{children, next_item}
use immure.Store.{Entry, Store}
use immure.Store.Walk.{
  Walk, Item, trouble, folder, yields, nothing, is_temp_dir, named, found_entry, item_of, read_item,
  pushed, in_front, load_items, load,
}

-- The entry is found in the directory, or in one that is found in it.
pub data Reached (s : Store) (walk : Walk) (fs : Fs) : FilePath → Entry → Type 0 where
  inside :
      {p : FilePath} {c : OsName} {n : Node} {e : Entry}
      → Memᴰ (c, n) (children p fs)
      → item_of s walk p c n ≡ yields e
      → Reached s walk fs p e
  further :
      {p q : FilePath} {c : OsName} {n : Node} {e : Entry}
      → Memᴰ (c, n) (children p fs)
      → item_of s walk p c n ≡ folder q
      → Reached s walk fs q e
      → Reached s walk fs p e

abbrev IsPlain : Item → Type 0
IsPlain (trouble e) = ⊥
IsPlain (folder q) = Unit {0}
IsPlain (yields e) = Unit {0}
IsPlain nothing = Unit {0}

named-IsPlain :
    (s : Store) (walk : Walk) (p : FilePath) (o : Option Text) → IsPlain (named s walk p o)
named-IsPlain s walk p none = tt
named-IsPlain s walk p (some name) = elim (Option-cases (found_entry s walk p name)) [
  | inl e ↦ rw e tt
  | inr (found, e) ↦ rw e tt
]

item_of-IsPlain :
    (s : Store) (walk : Walk) (p : FilePath) (c : OsName) (n : Node)
    → IsPlain (item_of s walk p c n)
unfolding item_of
item_of-IsPlain s walk p c dir = elim (Bool-cases (is_temp_dir s p c)) [
  | inl e ↦ rw e tt
  | inr e ↦ rw e tt
]
item_of-IsPlain s walk p c (file b r t) = named-IsPlain s walk (p ++ c ∷ []) (to_str c)
item_of-IsPlain s walk p c special = named-IsPlain s walk (p ++ c ∷ []) (to_str c)

-- The pile, and the entries, after a directory was read where no call met a failure.
unfoldable pub piled :
    Store → Walk → FilePath → List (OsName × Node) → List FilePath → List FilePath
piled s walk p [] pile = pile
piled s walk p ((c, n) ∷ more) pile = piled s walk p more (pushed (item_of s walk p c n) pile)

abbrev pub front : Item → List Entry → List Entry
front (yields e) found = e ∷ found
front (trouble e) found = found
front (folder q) found = found
front nothing found = found

unfoldable pub yielded_by : Store → Walk → FilePath → List (OsName × Node) → List Entry
yielded_by s walk p [] = []
yielded_by s walk p ((c, n) ∷ more) = front (item_of s walk p c n) (yielded_by s walk p more)

front_ok : (x : Item) (es : List Entry) → IsPlain x → in_front x (map ok es) ≡ map ok (front x es)
front_ok (trouble e) es plain = absurd plain
front_ok (folder q) es plain = refl
front_ok (yields e) es plain = refl
front_ok nothing es plain = refl

read_item_calm :
    (s : Store) (walk : Walk) (p : FilePath) (c : OsName) (n : Node) (w : World)
    → w.script ≡ []
    → read_item s walk p c n w ≡ (item_of s walk p c n, w)
unfolding read_item next_item sys meet
read_item_calm s walk p c n w calm = rw calm refl

load_items_calm :
    (s : Store) (walk : Walk) (p : FilePath) (items : List (OsName × Node)) (pile : List FilePath)
    (w : World)
    → w.script ≡ []
    → load_items s walk p items pile w
      ≡ ((piled s walk p items pile, map ok (yielded_by s walk p items)), w)
unfolding load_items piled yielded_by
load_items_calm s walk p [] pile w calm = refl
load_items_calm s walk p ((c, n) ∷ more) pile w calm =
    rw
      (
        read_item_calm s walk p c n w calm,
        load_items_calm s walk p more (pushed (item_of s walk p c n) pile) w calm,
      )
      (ap (λ found. ((piled s walk p more (pushed (item_of s walk p c n) pile), found), w))
        (front_ok (item_of s walk p c n) (yielded_by s walk p more) (item_of-IsPlain s walk p c n)))

pub load_calm :
    (s : Store) (walk : Walk) (p : FilePath) (pile : List FilePath) (w : World)
    → w.script ≡ []
    → at p w.fs ≡ some dir
    → load s walk p pile w
      ≡ ((piled s walk p (children p w.fs) pile, map ok (yielded_by s walk p (children p w.fs))), w)
unfolding load
load_calm s walk p pile w calm found =
    let listed = read_dir_calm p w calm found in
    rw (load, listed)
      (ap (λ r. load_items s walk p (children p w.fs) pile r.1) listed
        ∙ load_items_calm s walk p (children p w.fs) pile w calm)
