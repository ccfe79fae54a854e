-- ===== src/Prelude/Sorting.antt =====
-- `sort`, `sort_by_key` and `dedup` of the standard library, by insertion; `before` is the order.
use mathlib.Core.Bool.{Bool}
use mathlib.Core.List.{List, [], ◌∷◌}
use immure.Prelude.Tests.{if◌then◌else◌}

module _ {ℓ} {A : Type ℓ} (before : A → A → Bool) where
  -- In front of the first that is not to come before it, so that equal keys keep their order.
  unfoldable pub insert : A → List A → List A
  insert x [] = x ∷ []
  insert x (y ∷ ys) = let rest = insert x ys in if before y x then y ∷ rest else x ∷ y ∷ ys

  unfoldable pub sort : List A → List A
  unfolding insert
  sort [] = []
  sort (x ∷ xs) = insert x (sort xs)

module _ {ℓ} {A : Type ℓ} (same : A → A → Bool) where
  abbrev pub without_twin : A → List A → List A
  without_twin x [] = x ∷ []
  without_twin x (y ∷ ys) = if same x y then y ∷ ys else x ∷ y ∷ ys

  -- `dedup`: equal neighbours are one.
  unfoldable pub dedup : List A → List A
  dedup [] = []
  dedup (x ∷ xs) = without_twin x (dedup xs)
