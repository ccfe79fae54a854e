-- ===== src/Store/Walk/Completes.antt =====
-- A walk of src/store.rs over a file system at rest comes to its end, and finds the entries that lie
-- below the root.
use immure.Prelude.{ℕ, ◌<◌, ◌≡◌, ap, sym, ◌∙◌, ◌↔◌, some, List, [], ◌∷◌, ◌++◌, map}
use mathlib.Core.Path.{subst}
use mathlib.Core.List.{Memᴰ}
use immure.FilePath.{OsName, FilePath}
use immure.Error.{ok}
use immure.Layout.Names.{IsLayout}
use immure.World.{Node, dir, at, World}
use immure.World.Listing.{children}
use immure.Store.{Entry, Store}
use immure.Store.Walk.{Walk, item_of, all_entries}
use immure.Store.Walk.Reached.{Reached}
use immure.Store.Walk.Below.{Below, yields-Below, yields_lem, folder_lem, folder_away}
use immure.Store.Walk.Weight.{dirs_below}
use immure.Store.Walk.Listed.{IsMap, children_in, at-in_children, item_folder}
use immure.Store.Walk.Loop.{all_entries-Reached}

module _ (s : Store) (walk : Walk) (w : World) (calm : w.script ≡ []) (once : IsMap w.fs) where
  listed_at :
      (p : FilePath) (c : OsName) (n : Node)
      → Memᴰ (c, n) (children p w.fs)
      → at (p ++ c ∷ []) w.fs ≡ some n
  listed_at p c n m = once (p ++ c ∷ []) n (children_in p w.fs (c, n) m)

  Reached-Below :
      {p : FilePath} {e : Entry} → Reached s walk w.fs p e → Below s.layout walk w.fs p e
  Reached-Below {p} {e} (Reached.inside {c = c} {n = n} m same) =
      yields-Below s walk w.fs p c n e (listed_at p c n m) same
  Reached-Below {p} {e} (Reached.further {q = q} {c = c} {n = n} m same way) =
      let (is_dir, path) = item_folder s walk p c n q same in
      Below.further (listed_at p c n m ∙ ap some is_dir)
        (folder_away s walk p q c (sym (ap (λ n. item_of s walk p c n) is_dir) ∙ same))
        (subst (λ q. Below s.layout walk w.fs q e) (sym path) (Reached-Below way))

  Below-Reached :
      {p : FilePath} {e : Entry}
      → IsLayout s.layout
      → Below s.layout walk w.fs p e
      → Reached s walk w.fs p e
  Below-Reached {p} layout (Below.inside {n = n} {d = d} {f = f} t there away names) =
      Reached.inside (at-in_children p _ n w.fs there)
        (yields_lem s walk p t n (d, f) layout away names)
  Below-Reached {p} layout (Below.further {c = c} there away below) =
      Reached.further (at-in_children p c dir w.fs there) (folder_lem s walk p c away)
        (Below-Reached layout below)

  -- For a layout as `Layout::new` makes it, when no call meets a failure, each path lies in
  -- the file system once, the root is a directory, and the walk is let read more directories
  -- than the root and those below it are: the walk comes to its end, no item of it is an
  -- error, it changes nothing, and it yields exactly the entries that lie below the root.
  -- These are the files, at any depth but not in a directory `tmp` directly under the root,
  -- whose name `parse_name` reads in a walk over entries, `parse_quarantined` in a walk over
  -- what was set aside, and either of the two in a walk over all, each with the digest and the
  -- form so read.
  pub all_entries-Below :
      (rounds : ℕ)
      → IsLayout s.layout
      → at s.layout.root w.fs ≡ some dir
      → dirs_below w.fs s.layout.root < rounds
      → (found : List Entry) × (all_entries walk rounds s w ≡ (ok (some (map ok found)), w))
        × ((e : Entry) → Memᴰ e found ↔ Below s.layout walk w.fs s.layout.root e)
  all_entries-Below rounds layout root enough =
      let (found, run, exact) = all_entries-Reached s walk w calm once rounds root enough in
      (
        found,
        run,
        λ e.
            (λ m. Reached-Below ((exact e).0 m), λ below. (exact e).1 (Below-Reached layout below)),
      )
