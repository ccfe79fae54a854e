-- ===== src/Store/Walk/Weight.antt =====
-- How many directories a walk of src/store.rs reads: the pile's weight counts each directory on it
-- with all those below, and falls as one is read.
use immure.Prelude.{
  ℕ, zero, suc, ◌+◌, ◌-◌, ◌≤◌, ◌≡◌, refl, ap, inl, inr, Text, Bool-cases, Option, none, some,
  Option-cases, List, [], ◌∷◌, ◌++◌, length, length-append, arith,
}
use immure.FilePath.{OsName, FilePath, to_str}
use immure.World.{Node, file, dir, special, Fs}
use immure.World.Listing.{child_of, children}
use immure.Store.{Store}
use immure.Store.Walk.{Walk, is_temp_dir, named, found_entry, item_of, pushed}
use immure.Store.Walk.Reached.{piled}

abbrev one_dir : (FilePath → ℕ) → FilePath → Node → ℕ
one_dir f q dir = f q
one_dir f q (file b r t) = 0
one_dir f q special = 0

-- The sum over the directories of a listing.
unfoldable pub sum_dirs : (FilePath → ℕ) → FilePath → List (OsName × Node) → ℕ
sum_dirs f p [] = 0
sum_dirs f p ((c, n) ∷ more) = one_dir f (p ++ c ∷ []) n + sum_dirs f p more

-- A directory with those below it, `levels` deep.
unfoldable pub weight : Fs → ℕ → FilePath → ℕ
unfolding sum_dirs
weight fs zero p = 1
weight fs (suc levels) p = 1 + sum_dirs (weight fs levels) p (children p fs)

-- The length of the longest path.
unfoldable pub longest : Fs → ℕ
longest [] = 0
longest ((q, n) ∷ fs) = length q + longest fs

abbrev pub dirs_below : Fs → FilePath → ℕ
dirs_below fs p = weight fs (longest fs - length p) p

unfoldable pub pile_weight : Fs → List FilePath → ℕ
unfolding weight longest
pile_weight fs [] = 0
pile_weight fs (p ∷ pile) = dirs_below fs p + pile_weight fs pile

pushes_none :
    (s : Store) (walk : Walk) (p : FilePath) (o : Option Text) (pile : List FilePath)
    → pushed (named s walk p o) pile ≡ pile
pushes_none s walk p none pile = refl
pushes_none s walk p (some name) pile = elim (Option-cases (found_entry s walk p name)) [
  | inl e ↦ rw e refl
  | inr (found, e) ↦ rw e refl
]

pushed_weight :
    (s : Store) (walk : Walk) (fs : Fs) (p : FilePath) (c : OsName) (n : Node)
    (pile : List FilePath)
    → pile_weight fs (pushed (item_of s walk p c n) pile)
      ≤ one_dir (dirs_below fs) (p ++ c ∷ []) n + pile_weight fs pile
unfolding item_of pile_weight
pushed_weight s walk fs p c dir pile = elim (Bool-cases (is_temp_dir s p c)) [
  | inl e ↦ rw e (omega arith)
  | inr e ↦ rw e (omega arith)
]
pushed_weight s walk fs p c (file b r t) pile =
    omega (arith, ap (pile_weight fs) (pushes_none s walk (p ++ c ∷ []) (to_str c) pile))
pushed_weight s walk fs p c special pile =
    omega (arith, ap (pile_weight fs) (pushes_none s walk (p ++ c ∷ []) (to_str c) pile))

pub piled_weight :
    (s : Store) (walk : Walk) (fs : Fs) (p : FilePath) (items : List (OsName × Node))
    (pile : List FilePath)
    → pile_weight fs (piled s walk p items pile)
      ≤ sum_dirs (dirs_below fs) p items + pile_weight fs pile
unfolding piled sum_dirs
piled_weight s walk fs p [] pile = omega arith
piled_weight s walk fs p ((c, n) ∷ more) pile = omega (
  arith,
  piled_weight s walk fs p more (pushed (item_of s walk p c n) pile),
  pushed_weight s walk fs p c n pile,
)

sum_same :
    (f g : FilePath → ℕ) (p : FilePath) (items : List (OsName × Node))
    → ((c : OsName) → f (p ++ c ∷ []) ≡ g (p ++ c ∷ []))
    → sum_dirs f p items ≡ sum_dirs g p items
unfolding sum_dirs
sum_same f g p [] same = refl
sum_same f g p ((c, dir) ∷ more) same = omega (arith, same c, sum_same f g p more same)
sum_same f g p ((c, file b r t) ∷ more) same = ap (λ k. 0 + k) (sum_same f g p more same)
sum_same f g p ((c, special) ∷ more) same = ap (λ k. 0 + k) (sum_same f g p more same)

child_length : (p q : FilePath) (c : OsName) → child_of p q ≡ some c → length q ≡ length p + 1
unfolding child_of
child_length [] [] c e = cc
child_length [] (d ∷ []) c e = refl
child_length [] (d ∷ d' ∷ q) c e = cc
child_length (b ∷ p) [] c e = cc
child_length (b ∷ p) (d ∷ q) c e = ground (arith, child_length p q c)

no_children : (p : FilePath) (fs : Fs) → longest fs ≤ length p → children p fs ≡ []
unfolding children longest
no_children p [] deep = refl
no_children p ((q, n) ∷ fs) deep = elim (Option-cases (child_of p q)) [
  | inl e ↦ rw (children, e) (no_children p fs (omega arith))
  | inr (c, e) ↦ absurd (omega (arith, child_length p q c e))
]

levels_below :
    (fs : Fs) (p : FilePath) (levels : ℕ)
    → longest fs - length p ≡ levels
    → 1 + sum_dirs (dirs_below fs) p (children p fs) ≡ weight fs levels p
unfolding weight sum_dirs
levels_below fs p zero e = rw (no_children p fs (omega arith)) refl
levels_below fs p (suc levels) e =
    ap (λ k. 1 + k)
      (sum_same (dirs_below fs) (weight fs levels) p (children p fs)
        (λ c. ap (λ k. weight fs k (p ++ c ∷ [])) (omega (arith, length-append p (c ∷ [])))))

-- One for the directory itself, and its directories.
pub dirs_below_lem :
    (fs : Fs) (p : FilePath) → 1 + sum_dirs (dirs_below fs) p (children p fs) ≡ dirs_below fs p
dirs_below_lem fs p = levels_below fs p (longest fs - length p) refl
