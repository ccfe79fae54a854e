-- ===== src/Store/Walk/Items.antt =====
-- What the items of a directory come to, for a walk of src/store.rs: which of them the pile and the
-- entries have.
use immure.Prelude.{◌≡◌, refl, ap, sym, ◌∙◌, ◌⊎◌, inl, inr, List, [], ◌∷◌}
use mathlib.Core.Path.{subst}
use mathlib.Core.List.{Memᴰ}
use mathlib.Core.List.Memᴰ
use immure.FilePath.{OsName, FilePath}
use immure.World.{Node}
use immure.Store.{Entry, Store}
use immure.Store.Walk.{Walk, Item, trouble, folder, yields, nothing, item_of, pushed}
use immure.Store.Walk.Reached.{piled, front, yielded_by}

-- An item of the listing comes to this.
abbrev pub Comes : Store → Walk → FilePath → List (OsName × Node) → Item → Type 0
Comes s walk p items x = (c : OsName) × (n : Node) × Memᴰ (c, n) items × (item_of s walk p c n ≡ x)

front_from :
    (x : Item) (found : List Entry) (e : Entry)
    → Memᴰ e (front x found)
    → (x ≡ yields e) ⊎ Memᴰ e found
front_from (yields y) found e m = elim (Memᴰ.cases_cons m) [
  | inl same ↦ inl (ap yields (sym same))
  | inr m ↦ inr m
]
front_from (trouble y) found e m = inr m
front_from (folder q) found e m = inr m
front_from nothing found e m = inr m

front_keeps : (x : Item) (found : List Entry) (e : Entry) → Memᴰ e found → Memᴰ e (front x found)
front_keeps (yields y) found e m = Memᴰ.tail m
front_keeps (trouble y) found e m = m
front_keeps (folder q) found e m = m
front_keeps nothing found e m = m

pub yielded_from :
    (s : Store) (walk : Walk) (p : FilePath) (items : List (OsName × Node)) (e : Entry)
    → Memᴰ e (yielded_by s walk p items)
    → Comes s walk p items (yields e)
unfolding yielded_by
yielded_from s walk p [] e m = absurd (Memᴰ.not-nil m)
yielded_from s walk p ((c, n) ∷ more) e m =
    elim (front_from (item_of s walk p c n) (yielded_by s walk p more) e m) [
      | inl same ↦ (c, n, Memᴰ.head refl, same)
      | inr m ↦
          let (c', n', m', same) = yielded_from s walk p more e m in (c', n', Memᴰ.tail m', same)
    ]

pub yielded_all :
    (s : Store) (walk : Walk) (p : FilePath) (items : List (OsName × Node)) (e : Entry) (c : OsName)
    (n : Node)
    → Memᴰ (c, n) items
    → item_of s walk p c n ≡ yields e
    → Memᴰ e (yielded_by s walk p items)
unfolding yielded_by
yielded_all s walk p [] e c n m same = absurd (Memᴰ.not-nil m)
yielded_all s walk p ((c', n') ∷ more) e c n m same = elim (Memᴰ.cases_cons m) [
  | inl x ↦
      subst (λ i. Memᴰ e (front i (yielded_by s walk p more)))
        (sym same ∙ ap (λ x. item_of s walk p x.0 x.1) x) (Memᴰ.head refl)
  | inr m ↦
      front_keeps (item_of s walk p c' n') (yielded_by s walk p more) e
        (yielded_all s walk p more e c n m same)
]

pushed_from :
    (x : Item) (pile : List FilePath) (q : FilePath)
    → Memᴰ q (pushed x pile)
    → (x ≡ folder q) ⊎ Memᴰ q pile
pushed_from (folder y) pile q m = elim (Memᴰ.cases_cons m) [
  | inl same ↦ inl (ap folder (sym same))
  | inr m ↦ inr m
]
pushed_from (trouble y) pile q m = inr m
pushed_from (yields e) pile q m = inr m
pushed_from nothing pile q m = inr m

pushed_keeps :
    (x : Item) (pile : List FilePath) (q : FilePath) → Memᴰ q pile → Memᴰ q (pushed x pile)
pushed_keeps (folder y) pile q m = Memᴰ.tail m
pushed_keeps (trouble y) pile q m = m
pushed_keeps (yields e) pile q m = m
pushed_keeps nothing pile q m = m

pub piled_from :
    (s : Store) (walk : Walk) (p : FilePath) (items : List (OsName × Node)) (pile : List FilePath)
    (q : FilePath)
    → Memᴰ q (piled s walk p items pile)
    → Comes s walk p items (folder q) ⊎ Memᴰ q pile
unfolding piled
piled_from s walk p [] pile q m = inr m
piled_from s walk p ((c, n) ∷ more) pile q m =
    elim (piled_from s walk p more (pushed (item_of s walk p c n) pile) q m) [
      | inl (c', n', m', same) ↦ inl (c', n', Memᴰ.tail m', same)
      | inr m ↦ elim (pushed_from (item_of s walk p c n) pile q m) [
        | inl same ↦ inl (c, n, Memᴰ.head refl, same)
        | inr m ↦ inr m
      ]
    ]

pub piled_keeps :
    (s : Store) (walk : Walk) (p : FilePath) (items : List (OsName × Node)) (pile : List FilePath)
    (q : FilePath)
    → Memᴰ q pile
    → Memᴰ q (piled s walk p items pile)
unfolding piled
piled_keeps s walk p [] pile q m = m
piled_keeps s walk p ((c, n) ∷ more) pile q m =
    piled_keeps s walk p more (pushed (item_of s walk p c n) pile) q
      (pushed_keeps (item_of s walk p c n) pile q m)

pub piled_all :
    (s : Store) (walk : Walk) (p : FilePath) (items : List (OsName × Node)) (pile : List FilePath)
    (q : FilePath) (c : OsName) (n : Node)
    → Memᴰ (c, n) items
    → item_of s walk p c n ≡ folder q
    → Memᴰ q (piled s walk p items pile)
unfolding piled
piled_all s walk p [] pile q c n m same = absurd (Memᴰ.not-nil m)
piled_all s walk p ((c', n') ∷ more) pile q c n m same = elim (Memᴰ.cases_cons m) [
  | inl x ↦ piled_keeps s walk p more (pushed (item_of s walk p c' n') pile) q (
      subst (λ i. Memᴰ q (pushed i pile)) (sym same ∙ ap (λ x. item_of s walk p x.0 x.1) x)
        (Memᴰ.head refl))
  | inr m ↦ piled_all s walk p more (pushed (item_of s walk p c' n') pile) q c n m same
]
