-- ===== src/Cipher/Opener/Reads.antt =====
-- Reading an `Opener` of src/crypt/cipher.rs to its end, held against `Cipher.Opener.Chunks`.
use mathlib.Core.Path.{subst}
use immure.Prelude.{
  ℕ, zero, suc, ◌+◌, ◌-◌, ◌<◌, min, ◌≡◌, refl, ap, sym, ◌∙◌, Bool, true, false, Option, none, some,
  List, [], ◌∷◌, ◌++◌, append_assoc, append-nil, length, length-take, length-drop, take, drop,
  drop-drop, take-append-drop, ◌⊎◌, inl, inr, arith,
}
use immure.Error.{IoError, Result, ok, err}
use immure.Exec.{continue}
use immure.Cipher.{Aead}
use immure.Cipher.Frame.{followed}
use immure.Cipher.Opener.{Spoiled, Opener, refill, hand_out, read_unless, read, keep, read_to_end}
use immure.Cipher.Opener.Chunks.{IsAead}
use immure.Cipher.Opener.Head.{Gives, Gives-map, IsLive, after_plain, ahead}
use immure.Cipher.Opener.Step.{size_ahead}
use immure.Cipher.Opener.Refill.{Refilled, refill_lem}

module _ (a : Aead) (laws : IsAead a) where
  abbrev ReadOut : Opener → Result IoError (List ℕ) × Opener → Type 0
  ReadOut s =
      Gives
        (λ bytes s'.
          ((bytes ≡ []) × (ahead a s ≡ ok []))
          ⊎ (IsLive s'
              × (0 < length bytes)
              × (ahead a s ≡ followed (ok bytes) (ahead a s'))
              × (size_ahead a s' < size_ahead a s)))
        (λ e. ahead a s ≡ err e)

  followed_assoc :
      (x y : List ℕ) (r : Result IoError (List ℕ))
      → followed (ok (x ++ y)) r ≡ followed (ok x) (followed (ok y) r)
  followed_assoc x y (ok z) = ap ok (append_assoc x y z)
  followed_assoc x y (err e) = refl

  hand_out_lem :
      (room : ℕ) (s : Opener)
      → 0 < room
      → IsLive s
      → s.taken < length s.plain
      → ReadOut s (hand_out a room true s)
  unfolding hand_out
  hand_out_lem room s h w k =
      let left = length-drop s.taken s.plain in
      inr (
        record {
          unspoiled = w.unspoiled;
          clean = w.clean;
          within = omega (arith, w.within);
          from_start = w.from_start;
        },
        omega (arith, left, length-take count (drop s.taken s.plain)),
        ap (λ x. followed (ok x) (after_plain a s))
              (sym (take-append-drop count (drop s.taken s.plain)))
            ∙ followed_assoc (take count (drop s.taken s.plain)) (drop count (drop s.taken s.plain))
                (after_plain a s)
            ∙ ap
                (λ x.
                  followed (ok (take count (drop s.taken s.plain)))
                    (followed (ok x) (after_plain a s)))
                (drop-drop s.taken count (s.taken + count) s.plain refl),
        omega arith,
      )
    where
      count : ℕ
      count = min room (length s.plain - s.taken)

  after_refill :
      (room : ℕ) (s : Opener) (r : Result IoError Bool × Opener)
      → 0 < room
      → Refilled a laws s r
      → ReadOut s (continue r.0 (λ more. hand_out a room more) r.1)
  after_refill room s (err e, s') h k = k
  after_refill room s (ok false, s') h (w, same, less, none_left) =
      unfold hand_out in inl (refl, none_left)
  after_refill room s (ok true, s') h (w, same, less, some_left) =
      Gives-map (hand_out a room true s') (λ bytes k c. carried bytes k c) (λ e c. same ∙ c)
        (hand_out_lem room s' h w some_left)
    where
      carried :
          (bytes : List ℕ) (k : Opener)
          → ((bytes ≡ []) × (ahead a s' ≡ ok []))
            ⊎ (IsLive k
                × (0 < length bytes)
                × (ahead a s' ≡ followed (ok bytes) (ahead a k))
                × (size_ahead a k < size_ahead a s'))
          → ((bytes ≡ []) × (ahead a s ≡ ok []))
            ⊎ (IsLive k
                × (0 < length bytes)
                × (ahead a s ≡ followed (ok bytes) (ahead a k))
                × (size_ahead a k < size_ahead a s))
      carried bytes k (inl (e, c)) = inl (e, same ∙ c)
      carried bytes k (inr (alive, pos, c, fewer)) = inr (alive, pos, same ∙ c, omega arith)

  read_unless_lem :
      (room : ℕ) (s : Opener) (o : Option Spoiled)
      → 0 < room
      → IsLive s
      → o ≡ none
      → ReadOut s (read_unless a o room s)
  read_unless_lem room s none h w e =
      unfold read_unless in after_refill room s (refill a 2 s) h (refill_lem a laws s w)
  read_unless_lem room s (some x) h w e = absurd (clash e)
    where
      clash : some x ≡ none → ⊥
      clash e = cc

  pub read_lem : (room : ℕ) (s : Opener) → IsLive s → ReadOut s (read a (suc room) s)
  read_lem room s w =
      subst (ReadOut s) (sym (read_nonzero room s))
        (read_unless_lem (suc room) s s.spoiled (omega arith) w w.unspoiled)
    where
      read_nonzero :
          (room : ℕ) (s : Opener) → read a (suc room) s ≡ read_unless a s.spoiled (suc room) s
      read_nonzero room s = unfold read in ground arith

  kept :
      (room fuel : ℕ) (s : Opener) (found : List ℕ) (r : Result IoError (List ℕ) × Opener)
      → ((k : Opener) (bytes : List ℕ)
          → IsLive k
          → size_ahead a k < size_ahead a s
          → read_to_end a (suc room) fuel k (found ++ bytes)
            ≡ followed (ok (found ++ bytes)) (ahead a k))
      → ReadOut s r
      → keep a (read_to_end a (suc room) fuel) found r ≡ followed (ok found) (ahead a s)
  unfolding keep
  kept room fuel s found (err e, s') loop h = ap (followed (ok found)) (sym h)
  kept room fuel s found (ok [], s') loop (inl (e, h)) =
      ap ok (sym (append-nil found)) ∙ ap (followed (ok found)) (sym h)
  kept room fuel s found (ok [], s') loop (inr (w, pos, h, less)) = absurd (omega arith)
  kept room fuel s found (ok (b ∷ bs), s') loop (inl (e, h)) = absurd (omega (arith, ap length e))
  kept room fuel s found (ok (b ∷ bs), s') loop (inr (w, pos, h, less)) =
      loop s' (b ∷ bs) w less
      ∙ followed_assoc found (b ∷ bs) (ahead a s')
      ∙ ap (followed (ok found)) (sym h)

  pub read_to_end_lem :
      (room fuel : ℕ) (s : Opener) (found : List ℕ)
      → IsLive s
      → size_ahead a s < fuel
      → read_to_end a (suc room) fuel s found ≡ followed (ok found) (ahead a s)
  unfolding read_to_end
  read_to_end_lem room zero s found w h = absurd (omega arith)
  read_to_end_lem room (suc fuel) s found w h =
      kept room fuel s found (read a (suc room) s)
        (λ k bytes alive less. read_to_end_lem room fuel k (found ++ bytes) alive (omega arith))
        (read_lem room s w)
