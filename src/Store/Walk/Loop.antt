-- ===== src/Store/Walk/Loop.antt =====
-- A walk of src/store.rs over a file system at rest comes to its end, and finds what the items of its directories lead to.
use immure.Prelude.{
  ℕ, zero, suc, ◌<◌, ◌≡◌, refl, ap, sym, ◌∙◌, ◌⊎◌, inl, inr, ◌↔◌, some, List, [], ◌∷◌, ◌++◌, map,
  arith,
}
use mathlib.Core.Path.{subst}
use mathlib.Core.List.{Memᴰ, map-append}
use mathlib.Core.List.Memᴰ
use immure.FilePath.{FilePath}
use immure.Error.{ok}
use immure.World.{dir, at, World}
use immure.World.Listing.{children}
use immure.Store.{Entry, Store}
use immure.Store.Walk.{Walk, gather, walk_loop, walk_from, all_entries}
use immure.Store.Walk.Reached.{Reached, inside, further, piled, yielded_by, load_calm}
use immure.Store.Walk.Items.{yielded_from, yielded_all, piled_from, piled_keeps, piled_all}
use immure.Store.Walk.Weight.{pile_weight, dirs_below, dirs_below_lem, piled_weight}
use immure.Store.Walk.Listed.{IsMap, children_in, item_folder}

module _ (s : Store) (walk : Walk) (w : World) (calm : w.script ≡ []) (once : IsMap w.fs) where
  abbrev AllDirs : List FilePath → Type 0
  AllDirs pile = (q : FilePath) → Memᴰ q pile → at q w.fs ≡ some dir

  -- Reached from one of the directories on the pile.
  abbrev ReachedAny : List FilePath → Entry → Type 0
  ReachedAny pile e = (p : FilePath) × Memᴰ p pile × Reached s walk w.fs p e

  dirs_stay :
      (p : FilePath) (pile : List FilePath)
      → AllDirs pile
      → AllDirs (piled s walk p (children p w.fs) pile)
  dirs_stay p pile dirs q m = elim (piled_from s walk p (children p w.fs) pile q m) [
    | inl (c, n, m, same) ↦
        let (is_folder, path) = item_folder s walk p c n q same in
        ap (λ q. at q w.fs) (sym path)
        ∙ (once (p ++ c ∷ []) n (children_in p w.fs (c, n) m) ∙ ap some is_folder)
    | inr m ↦ dirs q m
  ]

  abbrev entries_of : FilePath → List Entry
  entries_of p = yielded_by s walk p (children p w.fs)

  abbrev after_of : FilePath → List FilePath → List FilePath
  after_of p pile = piled s walk p (children p w.fs) pile

  found_before :
      (p : FilePath) (pile : List FilePath) (a : List Entry) (e : Entry)
      → Memᴰ e (a ++ entries_of p) ⊎ ReachedAny (after_of p pile) e
      → Memᴰ e a ⊎ ReachedAny (p ∷ pile) e
  found_before p pile a e (inl m) = elim (Memᴰ.append_cases a m) [
    | inl m ↦ inl m
    | inr m ↦
        let (c, n, m', same) = yielded_from s walk p (children p w.fs) e m in
        inr (p, Memᴰ.head refl, inside m' same)
  ]
  found_before p pile a e (inr (q, m, way)) =
      elim (piled_from s walk p (children p w.fs) pile q m) [
        | inl (c, n, m', same) ↦ inr (p, Memᴰ.head refl, further m' same way)
        | inr m ↦ inr (q, Memᴰ.tail m, way)
      ]

  found_here :
      (p : FilePath) (pile : List FilePath) (a : List Entry) (e : Entry)
      → Reached s walk w.fs p e
      → Memᴰ e (a ++ entries_of p) ⊎ ReachedAny (after_of p pile) e
  found_here p pile a e (inside {c = c} {n = n} m same) =
      inl (Memᴰ.append_right a (yielded_all s walk p (children p w.fs) e c n m same))
  found_here p pile a e (further {q = q} {c = c} {n = n} m same way) =
      inr (q, piled_all s walk p (children p w.fs) pile q c n m same, way)

  found_after :
      (p : FilePath) (pile : List FilePath) (a : List Entry) (e : Entry)
      → Memᴰ e a ⊎ ReachedAny (p ∷ pile) e
      → Memᴰ e (a ++ entries_of p) ⊎ ReachedAny (after_of p pile) e
  found_after p pile a e (inl m) = inl (Memᴰ.append_left (entries_of p) m)
  found_after p pile a e (inr (q, m, way)) = elim (Memᴰ.cases_cons m) [
    | inl same ↦ found_here p pile a e (subst (λ q. Reached s walk w.fs q e) same way)
    | inr m ↦ inr (q, piled_keeps s walk p (children p w.fs) pile q m, way)
  ]

  loop_step :
      (rounds : ℕ) (a : List Entry) (p : FilePath) (pile : List FilePath)
      → at p w.fs ≡ some dir
      → walk_loop s walk gather (suc rounds) (map ok a) (p ∷ pile) w
        ≡ walk_loop s walk gather rounds (map ok (a ++ entries_of p)) (after_of p pile) w
  unfolding walk_loop
  loop_step rounds a p pile found =
      rw (walk_loop, load_calm s walk p pile w calm found)
        (ap (λ l. walk_loop s walk gather rounds l (after_of p pile) w)
          (sym (map-append ok a (entries_of p))))

  loop_lem :
      (rounds : ℕ) (a : List Entry) (pile : List FilePath)
      → AllDirs pile
      → pile_weight w.fs pile < rounds
      → (found : List Entry) × (walk_loop s walk gather rounds (map ok a) pile w
          ≡ (ok (some (inl (map ok found))), w))
        × ((e : Entry) → Memᴰ e found ↔ (Memᴰ e a ⊎ ReachedAny pile e))
  unfolding walk_loop pile_weight
  loop_lem zero a pile dirs enough = absurd (omega arith)
  loop_lem (suc rounds) a [] dirs enough =
      (a, refl, λ e. (inl, λ o. elim o [ inl m ↦ m | inr (p, m, way) ↦ absurd (Memᴰ.not-nil m) ]))
  loop_lem (suc rounds) a (p ∷ pile) dirs enough =
      let (found, run, exact) =
        loop_lem rounds (a ++ entries_of p) (after_of p pile)
          (dirs_stay p pile (λ q m. dirs q (Memᴰ.tail m)))
          (omega (
            arith,
            enough,
            dirs_below_lem w.fs p,
            piled_weight s walk w.fs p (children p w.fs) pile,
          )) in
      (
        found,
        loop_step rounds a p pile (dirs p (Memᴰ.head refl)) ∙ run,
        λ e. (
          λ m. found_before p pile a e ((exact e).0 m),
          λ o. (exact e).1 (found_after p pile a e o),
        ),
      )

  -- When no call meets a failure, each path lies in the file system once, the root is a
  -- directory, and the walk is let read more directories than the root and those below it are:
  -- the walk comes to its end, no item of it is an error, it changes nothing, and it yields an
  -- entry exactly when an item of the root, or of a directory that the items lead to, comes to it.
  pub all_entries-Reached :
      (rounds : ℕ)
      → at s.layout.root w.fs ≡ some dir
      → dirs_below w.fs s.layout.root < rounds
      → (found : List Entry) × (all_entries walk rounds s w ≡ (ok (some (map ok found)), w))
        × ((e : Entry) → Memᴰ e found ↔ Reached s walk w.fs s.layout.root e)
  unfolding all_entries walk_from pile_weight
  all_entries-Reached rounds root enough =
      let (found, run, exact) =
        loop_lem rounds [] (s.layout.root ∷ [])
          (λ q m. ap (λ q. at q w.fs) (Memᴰ.eq_of_singleton m) ∙ root) (omega arith) in
      (
        found,
        rw run refl,
        λ e. (
          λ m. elim ((exact e).0 m) [
            | inl m ↦ absurd (Memᴰ.not-nil m)
            | inr (p, m, way) ↦ subst (λ p. Reached s walk w.fs p e) (Memᴰ.eq_of_singleton m) way
          ],
          λ way. (exact e).1 (inr (s.layout.root, Memᴰ.head refl, way)),
        ),
      )
