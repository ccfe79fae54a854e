-- ===== src/World/Listed.antt =====
-- The listings of World.Listing where no call meets a failure.
use immure.Prelude.{◌≡◌, refl, some, []}
use immure.FilePath.{FilePath}
use immure.Error.{ok}
use immure.World.{dir, at, World, sys, meet}
use immure.World.Listing.{children, read_dir, next_item}

pub read_dir_calm :
    (p : FilePath) (w : World)
    → w.script ≡ []
    → at p w.fs ≡ some dir
    → read_dir p w ≡ (ok (children p w.fs), w)
unfolding read_dir sys meet
read_dir_calm p w calm found = rw (calm, found) refl

pub next_item_calm : {A : Type 0} (a : A) (w : World) → w.script ≡ [] → next_item a w ≡ (ok a, w)
unfolding next_item sys meet
next_item_calm a w calm = rw calm refl
