-- ===== src/Stream/Fill.antt =====
-- `fill` of src/crypt/cipher.rs over a source that does not fail.
use immure.Prelude.{
  ℕ, zero, suc, ◌+◌, ◌-◌, ◌≤◌, ◌<◌, ◌≡◌, refl, ap, sym, ◌∙◌, true, false, List, [], ◌∷◌, ◌++◌,
  append_assoc, append-nil, length, length-take, length-drop, take, drop, take-append_right,
  drop-append_right, leb→le, take-append_left, drop-append_left, Bool-cases, inl, inr, leb, arith,
}
use mathlib.Core.Path.{subst}
use immure.Error.{IoError, Result, ok}
use immure.Stream.{piece, trouble, Source, read, is_interrupted, fill_loop, fill}

-- Reads meet no failure but interruptions, and no end before the end.
abbrev pub IsClean : Source → Type 0
IsClean [] = Unit
IsClean (piece bs ∷ src) = (0 < length bs) × IsClean src
IsClean (trouble e ∷ src) = (is_interrupted e ≡ true) × IsClean src

abbrev pub bytes_of : Source → List ℕ
bytes_of [] = []
bytes_of (piece bs ∷ src) = bs ++ bytes_of src
bytes_of (trouble e ∷ src) = bytes_of src

-- The answer is the first `room` bytes, and the source is left with the others.
pub record IsFilled (room : ℕ) (filled bytes : List ℕ) (r : Result IoError (List ℕ) × Source)
    : Type 0 where
  pub got : r.0 ≡ ok (filled ++ take room bytes)
  pub rest : bytes_of r.1 ≡ drop room bytes
  pub clean : IsClean r.1

-- Nothing is asked for any more.
full-IsFilled :
    (fuel : ℕ) (src : Source) (filled : List ℕ)
    → 0 < fuel
    → IsClean src
    → IsFilled 0 filled (bytes_of src) (fill_loop fuel src filled 0)
unfolding fill_loop
full-IsFilled zero src filled h c = absurd (omega arith)
full-IsFilled (suc fuel) src filled h c = record {
  got = ap ok (sym (append-nil filled));
  rest = refl;
  clean = c;
}

-- A piece went in whole, and the loop filled the rest of the buffer.
IsFilled-cons :
    (room : ℕ) (filled p bytes : List ℕ) (r : Result IoError (List ℕ) × Source)
    → length p ≤ room
    → IsFilled (room - length p) (filled ++ p) bytes r
    → IsFilled room filled (p ++ bytes) r
IsFilled-cons room filled p bytes r h w = record {
  got =
      w.got
      ∙ ap ok (
          append_assoc filled p (take (room - length p) bytes)
          ∙ ap (λ l. filled ++ l) (sym (take-append_right room p bytes h)));
  rest = w.rest ∙ sym (drop-append_right room p bytes h);
  clean = w.clean;
}

-- The piece is longer than the buffer: what does not fit stays.
IsFilled-over :
    (fuel : ℕ) (src : Source) (filled p : List ℕ) (room : ℕ)
    → 0 < fuel
    → room < length p
    → IsClean src
    → IsFilled room filled
        (p ++ bytes_of src)
        (fill_loop fuel (piece (drop room p) ∷ src) (filled ++ take room p) 0)
unfolding fill_loop
IsFilled-over zero src filled p room h k c = absurd (omega arith)
IsFilled-over (suc fuel) src filled p room h k c = record {
  got = ap (λ l. ok (filled ++ l)) (sym (take-append_left room p (bytes_of src) (omega arith)));
  rest = sym (drop-append_left room p (bytes_of src) (omega arith));
  clean = (omega (arith, length-drop room p), c);
}

module _ (fuel : ℕ) (src : Source) (filled : List ℕ) (room b : ℕ) (bs : List ℕ) where
  fill_loop_fits :
      leb (length (b ∷ bs)) (suc room) ≡ true
      → fill_loop (suc fuel) (piece (b ∷ bs) ∷ src) filled (suc room)
        ≡ fill_loop fuel src (filled ++ b ∷ bs) (suc room - length (b ∷ bs))
  unfolding fill_loop read
  fill_loop_fits h = ground arith

  fill_loop_over :
      leb (length (b ∷ bs)) (suc room) ≡ false
      → fill_loop (suc fuel) (piece (b ∷ bs) ∷ src) filled (suc room)
        ≡ fill_loop fuel (piece (drop room bs) ∷ src) (filled ++ b ∷ take room bs) 0
  unfolding fill_loop read
  fill_loop_over h = ground (arith, length-take room bs)

fill_loop_end :
    (fuel : ℕ) (filled : List ℕ) (room : ℕ) → fill_loop (suc fuel) [] filled room ≡ (ok filled, [])
unfolding fill_loop read
fill_loop_end fuel filled room = ground arith

fill_loop_interrupted :
    (fuel : ℕ) (src : Source) (filled : List ℕ) (room : ℕ) (e : IoError)
    → is_interrupted e ≡ true
    → fill_loop (suc fuel) (trouble e ∷ src) filled (suc room)
      ≡ fill_loop fuel src filled (suc room)
unfolding fill_loop read
fill_loop_interrupted fuel src filled room e h = ground arith

fill_loop-IsFilled :
    (fuel : ℕ) (src : Source) (filled : List ℕ) (room : ℕ)
    → length src + 1 < fuel
    → IsClean src
    → IsFilled room filled (bytes_of src) (fill_loop fuel src filled room)
fill_loop-IsFilled fuel src filled zero h c = full-IsFilled fuel src filled (omega arith) c
fill_loop-IsFilled zero src filled room h c = absurd (omega arith)
fill_loop-IsFilled (suc fuel) [] filled (suc room) h c =
    subst (IsFilled (suc room) filled []) (sym (fill_loop_end fuel filled (suc room)))
      (record { got = ap ok (sym (append-nil filled)); rest = refl; clean = tt })
fill_loop-IsFilled (suc fuel) (piece [] ∷ src) filled (suc room) h c = absurd (omega arith)
fill_loop-IsFilled (suc fuel) (piece (b ∷ bs) ∷ src) filled (suc room) h c =
    elim (Bool-cases (leb (length (b ∷ bs)) (suc room))) [
      | inl fits ↦
          subst (IsFilled (suc room) filled (b ∷ (bs ++ bytes_of src)))
            (sym (fill_loop_fits fuel src filled room b bs fits))
            (IsFilled-cons (suc room) filled (b ∷ bs) (bytes_of src) _ (leb→le _ _ fits) (
              fill_loop-IsFilled fuel src (filled ++ b ∷ bs) (suc room - length (b ∷ bs))
                (omega arith) c.1))
      | inr over ↦
          subst (IsFilled (suc room) filled (b ∷ (bs ++ bytes_of src)))
            (sym (fill_loop_over fuel src filled room b bs over))
            (IsFilled-over fuel src filled (b ∷ bs) (suc room) (omega arith) (ground arith) c.1)
    ]
fill_loop-IsFilled (suc fuel) (trouble e ∷ src) filled (suc room) h c =
    subst (IsFilled (suc room) filled (bytes_of src))
      (sym (fill_loop_interrupted fuel src filled room e c.0))
      (fill_loop-IsFilled fuel src filled (suc room) (omega arith) c.1)

-- From a source whose reads meet no failure but interruptions and give a byte at least, `fill`
-- takes the first bytes of the source, as many as the buffer has room for or the source has,
-- and leaves the source with the others, however the source is cut.
pub fill-IsFilled :
    (room : ℕ) (src : Source) → IsClean src → IsFilled room [] (bytes_of src) (fill room src)
unfolding fill
fill-IsFilled room src c = fill_loop-IsFilled (suc (suc (length src))) src [] room (omega arith) c
