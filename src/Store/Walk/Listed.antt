-- ===== src/Store/Walk/Listed.antt =====
-- What a listing holds lies in the file system, for a walk of src/store.rs.
use immure.Prelude.{
  ◌≡◌, refl, ap, sym, ◌∙◌, inl, inr, Text, Option, none, some, Option-cases, Bool-cases, [], ◌∷◌,
  ◌++◌, arith,
}
use mathlib.Core.Path.{subst}
use mathlib.Core.List.{Memᴰ}
use mathlib.Core.List.Memᴰ
use immure.FilePath.{OsName, FilePath, to_str, name_eq_iff, path_eq, path_eq_iff}
use immure.World.{Node, file, dir, special, Fs, at}
use immure.World.Listing.{child_of, children}
use immure.Store.{Entry, Store}
use immure.Store.Walk.{Walk, folder, yields, nothing, named, found_entry, item_of}

-- Each path lies in the file system once.
abbrev pub IsMap : Fs → Type 0
IsMap fs = (q : FilePath) (n : Node) → Memᴰ (q, n) fs → at q fs ≡ some n

named_folder :
    (s : Store) (walk : Walk) (p : FilePath) (o : Option Text) (q : FilePath)
    → named s walk p o ≡ folder q
    → ⊥
named_folder s walk p none q e = cc
named_folder s walk p (some name) q e = elim (Option-cases (found_entry s walk p name)) [
  | inl found ↦ nothing_folder q (sym (rw found refl) ∙ e)
  | inr (y, found) ↦ yields_folder y q (sym (rw found refl) ∙ e)
]
  where
    nothing_folder : (q : FilePath) → nothing ≡ folder q → ⊥
    nothing_folder q e = cc

    yields_folder : (y : Entry) (q : FilePath) → yields y ≡ folder q → ⊥
    yields_folder y q e = cc

pub item_folder :
    (s : Store) (walk : Walk) (p : FilePath) (c : OsName) (n : Node) (q : FilePath)
    → item_of s walk p c n ≡ folder q
    → (n ≡ dir) × (p ++ c ∷ [] ≡ q)
unfolding item_of
item_folder s walk p c dir q e = (refl, ground arith)
item_folder s walk p c (file b r t) q e = absurd (named_folder s walk (p ++ c ∷ []) (to_str c) q e)
item_folder s walk p c special q e = absurd (named_folder s walk (p ++ c ∷ []) (to_str c) q e)

child_path : (p q : FilePath) (c : OsName) → child_of p q ≡ some c → p ++ c ∷ [] ≡ q
unfolding child_of
child_path [] [] c e = cc
child_path [] (d ∷ []) c e = cc
child_path [] (d ∷ d' ∷ q) c e = cc
child_path (b ∷ p) [] c e = cc
child_path (b ∷ p) (d ∷ q) c e = ground (arith, child_path p q c, name_eq_iff b d)

children_miss :
    (p q : FilePath) (n : Node) (fs : Fs)
    → child_of p q ≡ none
    → children p ((q, n) ∷ fs) ≡ children p fs
unfolding children
children_miss p q n fs e = rw (children, e) refl

children_hit :
    (p q : FilePath) (n : Node) (fs : Fs) (c : OsName)
    → child_of p q ≡ some c
    → children p ((q, n) ∷ fs) ≡ (c, n) ∷ children p fs
unfolding children
children_hit p q n fs c e = rw (children, e) refl

pub children_in :
    (p : FilePath) (fs : Fs) (x : OsName × Node)
    → Memᴰ x (children p fs)
    → Memᴰ (p ++ x.0 ∷ [], x.1) fs
unfolding children
children_in p [] x m = absurd (Memᴰ.not-nil m)
children_in p ((q, n) ∷ fs) x m = elim (Option-cases (child_of p q)) [
  | inl e ↦ Memᴰ.tail (children_in p fs x (subst (λ l. Memᴰ x l) (children_miss p q n fs e) m))
  | inr (c, e) ↦ elim (Memᴰ.cases_cons (subst (λ l. Memᴰ x l) (children_hit p q n fs c e) m)) [
    | inl same ↦
        Memᴰ.head (ap (λ y. (p ++ y.0 ∷ [], y.1)) same ∙ ap (λ q. (q, n)) (child_path p q c e))
    | inr m ↦ Memᴰ.tail (children_in p fs x m)
  ]
]

child_of-append : (p : FilePath) (c : OsName) → child_of p (p ++ c ∷ []) ≡ some c
unfolding child_of
child_of-append [] c = refl
child_of-append (b ∷ p) c = rw ((name_eq_iff b b).1 refl) (child_of-append p c)

in_children :
    (p : FilePath) (c : OsName) (n : Node) (fs : Fs)
    → Memᴰ (p ++ c ∷ [], n) fs
    → Memᴰ (c, n) (children p fs)
in_children p c n [] m = absurd (Memᴰ.not-nil m)
in_children p c n ((q, k) ∷ fs) m = elim (Memᴰ.cases_cons m) [
  | inl same ↦
      let is_child = sym (ap (λ y. child_of p y.0) same) ∙ child_of-append p c in
      subst (λ l. Memᴰ (c, n) l) (sym (children_hit p q k fs c is_child))
        (Memᴰ.head (ap (λ y. (c, y.1)) same))
  | inr m ↦ elim (Option-cases (child_of p q)) [
    | inl e ↦ subst (λ l. Memᴰ (c, n) l) (sym (children_miss p q k fs e)) (in_children p c n fs m)
    | inr (d, e) ↦
        subst (λ l. Memᴰ (c, n) l) (sym (children_hit p q k fs d e))
          (Memᴰ.tail (in_children p c n fs m))
  ]
]

at-in : (q : FilePath) (n : Node) (fs : Fs) → at q fs ≡ some n → Memᴰ (q, n) fs
unfolding at
at-in q n [] e = absurd (cc)
at-in q n ((r, k) ∷ fs) e = elim (Bool-cases (path_eq r q)) [
  | inl same ↦ Memᴰ.head (here q r n k ((path_eq_iff r q).0 same) (ground arith))
  | inr differ ↦ Memᴰ.tail (at-in q n fs (ground arith))
]
  where
    here : (q r : FilePath) (n k : Node) → r ≡ q → k ≡ n → ◌≡◌ {A = FilePath × Node} (q, n) (r, k)
    here q r n k e f = cc

-- What lies directly under the directory is in its listing.
pub at-in_children :
    (p : FilePath) (c : OsName) (n : Node) (fs : Fs)
    → at (p ++ c ∷ []) fs ≡ some n
    → Memᴰ (c, n) (children p fs)
at-in_children p c n fs e = in_children p c n fs (at-in (p ++ c ∷ []) n fs e)
