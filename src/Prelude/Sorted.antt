-- ===== src/Prelude/Sorted.antt =====
-- What `sort` and `dedup` leave: the same elements, each one once, each before those after it.
use mathlib.Core.Path.{◌≡◌, refl, sym, ap, ◌∙◌, subst}
use mathlib.Core.Logic.{◌⊎◌, ◌↔◌, inl, inr}
use mathlib.Core.Bool.{Bool, true, false}
use mathlib.Core.List.{List, [], ◌∷◌, Memᴰ}
use mathlib.Core.List.Memᴰ
use immure.Prelude.Tests.{Bool-cases}
use immure.Prelude.Sorting.{insert, sort, without_twin, dedup}

module _ {A : Type 0} (before : A → A → Bool) where
  insert_miss : (x y : A) (ys : List A) → before y x ≡ false → insert before x (y ∷ ys) ≡ x ∷ y ∷ ys
  unfolding insert
  insert_miss x y ys e = rw (insert, e) refl

  insert_past :
      (x y : A) (ys : List A)
      → before y x ≡ true
      → insert before x (y ∷ ys) ≡ y ∷ insert before x ys
  unfolding insert
  insert_past x y ys e = rw (insert, e) refl

  insert_from : (x : A) (l : List A) (z : A) → Memᴰ z (insert before x l) → (z ≡ x) ⊎ Memᴰ z l
  unfolding insert
  insert_from x [] z m = Memᴰ.cases_cons m
  insert_from x (y ∷ ys) z m = elim (Bool-cases (before y x)) [
    | inr e ↦ Memᴰ.cases_cons (subst (λ l. Memᴰ z l) (insert_miss x y ys e) m)
    | inl e ↦ elim (Memᴰ.cases_cons (subst (λ l. Memᴰ z l) (insert_past x y ys e) m)) [
      | inl same ↦ inr (Memᴰ.head same)
      | inr m ↦ elim (insert_from x ys z m) [ inl same ↦ inl same | inr m ↦ inr (Memᴰ.tail m) ]
    ]
  ]

  insert_all : (x : A) (l : List A) (z : A) → (z ≡ x) ⊎ Memᴰ z l → Memᴰ z (insert before x l)
  unfolding insert
  insert_all x [] z (inl same) = Memᴰ.head same
  insert_all x [] z (inr m) = absurd (Memᴰ.not-nil m)
  insert_all x (y ∷ ys) z o = elim (Bool-cases (before y x)) [
    | inr e ↦
        subst (λ l. Memᴰ z l) (sym (insert_miss x y ys e))
          (elim o [ inl same ↦ Memᴰ.head same | inr m ↦ Memᴰ.tail m ])
    | inl e ↦
        subst (λ l. Memᴰ z l) (sym (insert_past x y ys e))
          (elim o [
            | inl same ↦ Memᴰ.tail (insert_all x ys z (inl same))
            | inr m ↦ elim (Memᴰ.cases_cons m) [
              | inl same ↦ Memᴰ.head same
              | inr m ↦ Memᴰ.tail (insert_all x ys z (inr m))
            ]
          ])
  ]

  pub sort-mem : (l : List A) (z : A) → Memᴰ z (sort before l) ↔ Memᴰ z l
  unfolding sort
  sort-mem [] z = (λ m. m, λ m. m)
  sort-mem (x ∷ l) z = (
    λ m. elim (insert_from x (sort before l) z m) [
      | inl same ↦ Memᴰ.head same
      | inr m ↦ Memᴰ.tail ((sort-mem l z).0 m)
    ],
    λ m.
        insert_all x (sort before l) z
          (elim (Memᴰ.cases_cons m) [ inl same ↦ inl same | inr m ↦ inr ((sort-mem l z).1 m) ]),
  )

  -- No element is to come before an earlier one.
  abbrev pub IsSorted : List A → Type 0
  IsSorted [] = Unit {0}
  IsSorted (x ∷ l) = ((y : A) → Memᴰ y l → before y x ≡ false) × IsSorted l

  -- Each element is to come before every later one.
  abbrev pub IsRising : List A → Type 0
  IsRising [] = Unit {0}
  IsRising (x ∷ l) = ((y : A) → Memᴰ y l → before x y ≡ true) × IsRising l

-- A strict total order, by its tests.
pub record IsOrder {A : Type 0} (before same : A → A → Bool) : Type 0 where
  pub asym : (x y : A) → before x y ≡ true → before y x ≡ false
  pub weak : (x y z : A) → before z y ≡ false → before y x ≡ false → before z x ≡ false
  pub total : (x y : A) → before x y ≡ false → before y x ≡ false → x ≡ y
  pub same_iff : (x y : A) → (same x y ≡ true) ↔ (x ≡ y)

module _ {A : Type 0} (before same : A → A → Bool) (order : IsOrder before same) where
  insert-IsSorted : (x : A) (l : List A) → IsSorted before l → IsSorted before (insert before x l)
  unfolding insert
  insert-IsSorted x [] sorted = (λ y m. absurd (Memᴰ.not-nil m), tt)
  insert-IsSorted x (y ∷ ys) sorted = elim (Bool-cases (before y x)) [
    | inr e ↦
        subst (λ l. IsSorted before l) (sym (insert_miss before x y ys e))
          (
            λ z m. elim (Memᴰ.cases_cons m) [
              | inl same ↦ ap (λ z. before z x) same ∙ e
              | inr m ↦ order.weak x y z (sorted.0 z m) e
            ],
            sorted,
          )
    | inl e ↦
        subst (λ l. IsSorted before l) (sym (insert_past before x y ys e))
          (
            λ z m. elim (insert_from before x ys z m) [
              | inl same ↦ ap (λ z. before z y) same ∙ order.asym y x e
              | inr m ↦ sorted.0 z m
            ],
            insert-IsSorted x ys sorted.1,
          )
  ]

  sort-IsSorted : (l : List A) → IsSorted before (sort before l)
  unfolding sort
  sort-IsSorted [] = tt
  sort-IsSorted (x ∷ l) = insert-IsSorted x (sort before l) (sort-IsSorted l)

  twin_there : (x y : A) (ys : List A) → same x y ≡ true → without_twin same x (y ∷ ys) ≡ y ∷ ys
  twin_there x y ys e = rw e refl

  twin_new : (x y : A) (ys : List A) → same x y ≡ false → without_twin same x (y ∷ ys) ≡ x ∷ y ∷ ys
  twin_new x y ys e = rw e refl

  twin_from : (x : A) (l : List A) (z : A) → Memᴰ z (without_twin same x l) → (z ≡ x) ⊎ Memᴰ z l
  twin_from x [] z m = Memᴰ.cases_cons m
  twin_from x (y ∷ ys) z m = elim (Bool-cases (same x y)) [
    | inl e ↦ inr (subst (λ l. Memᴰ z l) (twin_there x y ys e) m)
    | inr e ↦ Memᴰ.cases_cons (subst (λ l. Memᴰ z l) (twin_new x y ys e) m)
  ]

  twin_all : (x : A) (l : List A) (z : A) → (z ≡ x) ⊎ Memᴰ z l → Memᴰ z (without_twin same x l)
  twin_all x [] z (inl e) = Memᴰ.head e
  twin_all x [] z (inr m) = absurd (Memᴰ.not-nil m)
  twin_all x (y ∷ ys) z o = elim (Bool-cases (same x y)) [
    | inl e ↦
        subst (λ l. Memᴰ z l) (sym (twin_there x y ys e))
          (elim o [ inl z_x ↦ Memᴰ.head (z_x ∙ (order.same_iff x y).0 e) | inr m ↦ m ])
    | inr e ↦
        subst (λ l. Memᴰ z l) (sym (twin_new x y ys e))
          (elim o [ inl z_x ↦ Memᴰ.head z_x | inr m ↦ Memᴰ.tail m ])
  ]

  dedup-mem : (l : List A) (z : A) → Memᴰ z (dedup same l) ↔ Memᴰ z l
  unfolding dedup
  dedup-mem [] z = (λ m. m, λ m. m)
  dedup-mem (x ∷ l) z = (
    λ m. elim (twin_from x (dedup same l) z m) [
      | inl e ↦ Memᴰ.head e
      | inr m ↦ Memᴰ.tail ((dedup-mem l z).0 m)
    ],
    λ m.
        twin_all x (dedup same l) z
          (elim (Memᴰ.cases_cons m) [ inl e ↦ inl e | inr m ↦ inr ((dedup-mem l z).1 m) ]),
  )

  true-false : {b : Bool} → b ≡ true → b ≡ false → ⊥
  true-false t f = cc

  -- What is not before `x`, and is not its twin in front, comes after it.
  comes_after :
      (x y : A) (ys : List A)
      → same x y ≡ false
      → ((z : A) → Memᴰ z (y ∷ ys) → before z x ≡ false)
      → IsRising before (y ∷ ys)
      → (z : A) → Memᴰ z (y ∷ ys)
      → before x z ≡ true
  comes_after x y ys new behind rising z m = elim (Bool-cases (before x z)) [
    | inl e ↦ e
    | inr e ↦
        let x_z = order.total x z e (behind z m) in
        absurd (elim (Memᴰ.cases_cons m) [
          | inl z_y ↦ true-false ((order.same_iff x y).1 (x_z ∙ z_y)) new
          | inr m ↦ true-false (ap (λ z. before y z) x_z ∙ rising.0 z m) (behind y (Memᴰ.head refl))
        ])
  ]

  twin-IsRising :
      (x : A) (l : List A)
      → ((z : A) → Memᴰ z l → before z x ≡ false)
      → IsRising before l
      → IsRising before (without_twin same x l)
  twin-IsRising x [] behind rising = (λ y m. absurd (Memᴰ.not-nil m), tt)
  twin-IsRising x (y ∷ ys) behind rising = elim (Bool-cases (same x y)) [
    | inl e ↦ subst (λ l. IsRising before l) (sym (twin_there x y ys e)) rising
    | inr e ↦
        subst (λ l. IsRising before l) (sym (twin_new x y ys e))
          (comes_after x y ys e behind rising, rising)
  ]

  dedup-IsRising : (l : List A) → IsSorted before l → IsRising before (dedup same l)
  unfolding dedup
  dedup-IsRising [] sorted = tt
  dedup-IsRising (x ∷ l) sorted =
      twin-IsRising x (dedup same l) (λ z m. sorted.0 z ((dedup-mem l z).0 m))
        (dedup-IsRising l sorted.1)

  pub dedup-sort :
      (l : List A)
      → IsRising before (dedup same (sort before l))
        × ((z : A) → Memᴰ z (dedup same (sort before l)) ↔ Memᴰ z l)
  dedup-sort l = (
    dedup-IsRising (sort before l) (sort-IsSorted l),
    λ z. (
      λ m. (sort-mem before l z).0 ((dedup-mem (sort before l) z).0 m),
      λ m. (dedup-mem (sort before l) z).1 ((sort-mem before l z).1 m),
    ),
  )
