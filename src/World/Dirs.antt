-- ===== src/World/Dirs.antt =====
-- What making directories does to the file system, where no call meets a failure and nothing but
-- directories is in the way.
use immure.Prelude.{
  ◌≡◌, refl, ap, sym, ◌∙◌, ◌⊎◌, inl, inr, true, false, Option, none, some, [], ◌∷◌, ◌++◌,
  append_assoc, append-nil, Bool-cases, arith,
}
use mathlib.Core.Path.{subst}
use immure.FilePath.{OsName, FilePath, path_eq, path_eq_iff}
use immure.Error.{ok}
use immure.World.{Node, dir, Fs, at, put, make_from, on_the_way, World, create_dir_all, sys, meet}
use immure.World.Calls.{at-put, at-put_self}

-- Nothing, or a directory.
abbrev pub IsClear : Option Node → Type 0
IsClear o = (o ≡ none) ⊎ (o ≡ some dir)

-- The path is not on the way to `p`.
abbrev pub IsOff : FilePath → FilePath → Type 0
IsOff q p = (r : FilePath) → p ≡ q ++ r → ⊥

-- What lies at a path and at those on the way to it from `place` on.
abbrev pub ClearFrom : FilePath → FilePath → Fs → Type 0
ClearFrom place more fs =
    (front back : FilePath) (c : OsName)
    → more ≡ (front ++ c ∷ []) ++ back
    → IsClear (at (place ++ (front ++ c ∷ [])) fs)

-- After `more` was made below `place`: what was there is kept, only what is on the way is new, and
-- the whole way is directories.
pub record IsMade (place more : FilePath) (before after : Fs) : Type 0 where
  pub kept : (q : FilePath) (n : Node) → at q before ≡ some n → at q after ≡ some n
  pub clear : (q : FilePath) → IsClear (at q before) → IsClear (at q after)
  pub off : (q : FilePath) → IsOff q (place ++ more) → at q after ≡ at q before
  pub there : (c : OsName) (rest : FilePath) → more ≡ c ∷ rest → at (place ++ more) after ≡ some dir

true-false : true ≡ false → ⊥
true-false e = cc

pub put-other : (p q : FilePath) (n : Node) (fs : Fs) → (p ≡ q → ⊥) → at q (put p n fs) ≡ at q fs
put-other p q n fs away = elim (Bool-cases (path_eq p q)) [
  | inl same ↦ absurd (away ((path_eq_iff p q).0 same))
  | inr differ ↦ ground (arith, at-put p q n fs)
]

pub IsMade-nil : (place : FilePath) (fs : Fs) → IsMade place [] fs fs
IsMade-nil place fs = record {
  kept = λ q n e. e;
  clear = λ q e. e;
  off = λ q away. refl;
  there = λ c rest e. cc;
}

way_there :
    (place more : FilePath) (c : OsName) (middle after : Fs)
    → at (place ++ c ∷ []) middle ≡ some dir
    → IsMade (place ++ c ∷ []) more middle after
    → at ((place ++ c ∷ []) ++ more) after ≡ some dir
way_there place [] c middle after here made =
    subst (λ p. at p after ≡ some dir) (sym (append-nil (place ++ c ∷ [])))
      (made.kept (place ++ c ∷ []) dir here)
way_there place (d ∷ more) c middle after here made = made.there d more refl

still-IsClear :
    (p q : FilePath) (before middle : Fs)
    → ((q : FilePath) → (p ≡ q → ⊥) → at q middle ≡ at q before)
    → at p middle ≡ some dir
    → IsClear (at q before)
    → IsClear (at q middle)
still-IsClear p q before middle same here clear = elim (Bool-cases (path_eq p q)) [
  | inl equal ↦ inr (ap (λ p. at p middle) (sym ((path_eq_iff p q).0 equal)) ∙ here)
  | inr differ ↦
      subst IsClear (sym (same q (λ k. true-false (sym ((path_eq_iff p q).1 k) ∙ differ)))) clear
]

-- The next step of the way is a directory now.
pub stepped :
    (place more : FilePath) (c : OsName) (before middle after : Fs)
    → ((q : FilePath) (n : Node) → at q before ≡ some n → at q middle ≡ some n)
    → ((q : FilePath) → (place ++ c ∷ [] ≡ q → ⊥) → at q middle ≡ at q before)
    → at (place ++ c ∷ []) middle ≡ some dir
    → IsMade (place ++ c ∷ []) more middle after
    → IsMade place (c ∷ more) before after
stepped place more c before middle after keep same here made = record {
  kept = λ q n e. made.kept q n (keep q n e);
  clear = λ q e. made.clear q (still-IsClear (place ++ c ∷ []) q before middle same here e);
  off = λ q away.
      made.off q (λ r e. away r (sym (append_assoc place (c ∷ []) more) ∙ e))
      ∙ same q (λ e. away more (sym (append_assoc place (c ∷ []) more) ∙ ap (λ l. l ++ more) e));
  there = λ d rest e.
      subst (λ p. at p after ≡ some dir) (append_assoc place (c ∷ []) more)
        (way_there place more c middle after here made);
}

pub later_clear :
    (place more : FilePath) (c : OsName) (before middle : Fs)
    → ((q : FilePath) → (place ++ c ∷ [] ≡ q → ⊥) → at q middle ≡ at q before)
    → at (place ++ c ∷ []) middle ≡ some dir
    → ClearFrom place (c ∷ more) before
    → ClearFrom (place ++ c ∷ []) more middle
later_clear place more c before middle same here clear front back d e =
    let q = (place ++ c ∷ []) ++ (front ++ d ∷ []) in
    let was : IsClear (at q before) =
      subst (λ p. IsClear (at p before)) (sym (append_assoc place (c ∷ []) (front ++ d ∷ [])))
        (clear (c ∷ front) back d (ap (λ l. c ∷ l) e)) in
    still-IsClear (place ++ c ∷ []) q before middle same here was

-- A directory that was there, and one that is made.
pub put_keeps :
    (p q : FilePath) (n m : Node) (fs : Fs)
    → at p fs ≡ none
    → at q fs ≡ some m
    → at q (put p n fs) ≡ some m
put_keeps p q n m fs free there = ground (arith, at-put p q n fs, path_eq_iff p q)

make_from_free :
    (place more : FilePath) (c : OsName) (fs : Fs)
    → at (place ++ c ∷ []) fs ≡ none
    → make_from place (c ∷ more) fs
      ≡ make_from (place ++ c ∷ []) more (put (place ++ c ∷ []) dir fs)
make_from_free place more c fs e =
    ap
      (on_the_way (make_from (place ++ c ∷ []) more (put (place ++ c ∷ []) dir fs))
        (make_from (place ++ c ∷ []) more fs) more fs)
      e

make_from_there :
    (place more : FilePath) (c : OsName) (fs : Fs)
    → at (place ++ c ∷ []) fs ≡ some dir
    → make_from place (c ∷ more) fs ≡ make_from (place ++ c ∷ []) more fs
make_from_there place more c fs e =
    ap
      (on_the_way (make_from (place ++ c ∷ []) more (put (place ++ c ∷ []) dir fs))
        (make_from (place ++ c ∷ []) more fs) more fs)
      e

make_from_lem :
    (place more : FilePath) (fs : Fs)
    → ClearFrom place more fs
    → (after : Fs) × (make_from place more fs ≡ (ok tt, after)) × IsMade place more fs after
make_from_lem place [] fs clear = (fs, refl, IsMade-nil place fs)
make_from_lem place (c ∷ more) fs clear = elim (clear [] more c refl) [
  | inl free ↦
      let here = at-put_self (place ++ c ∷ []) dir fs in
      let same : (q : FilePath)
          → (place ++ c ∷ [] ≡ q → ⊥)
          → at q (put (place ++ c ∷ []) dir fs) ≡ at q fs =
        λ q away. put-other (place ++ c ∷ []) q dir fs away in
      let (after, run, made) =
        make_from_lem (place ++ c ∷ []) more (put (place ++ c ∷ []) dir fs)
          (later_clear place more c fs (put (place ++ c ∷ []) dir fs) same here clear) in
      (
        after,
        make_from_free place more c fs free ∙ run,
        stepped place more c fs (put (place ++ c ∷ []) dir fs) after
            (λ q n e. put_keeps (place ++ c ∷ []) q dir n fs free e) same here made,
      )
  | inr there ↦
      let (after, run, made) =
        make_from_lem (place ++ c ∷ []) more fs
          (later_clear place more c fs fs (λ q away. refl) there clear) in
      (
        after,
        make_from_there place more c fs there ∙ run,
        stepped place more c fs fs after (λ q n e. e) (λ q away. refl) there made,
      )
]

pub create_dir_all_calm :
    (p : FilePath) (w : World)
    → w.script ≡ []
    → ClearFrom [] p w.fs
    → (after : Fs) × (create_dir_all p w ≡ (ok tt, record w { fs = after }))
      × IsMade [] p w.fs after
unfolding create_dir_all sys meet
create_dir_all_calm p w calm clear =
    let (after, run, made) = make_from_lem [] p w.fs clear in (after, rw (calm, run) refl, made)
