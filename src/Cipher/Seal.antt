-- ===== src/Cipher/Seal.antt =====
-- The single calls on a `Sealer` of src/crypt/cipher.rs, held against `Cipher.Frame`.
use mathlib.Core.Path.{subst}
use immure.Prelude.{
  ℕ, ◌+◌, ◌≤◌, ◌<◌, ◌≡◌, refl, ap, sym, ◌∙◌, Bool, false, Option, none, some, List, [], ◌++◌,
  append_assoc, length, length-append, length-drop, take, drop, take-append_length,
  drop-append_length, take_all, drop_all, ltb, ◌==◌, ==_iff, Bool-cases, inl, inr, arith,
}
use immure.Error.{IoError, Result, ok, err, ◌>>=◌}
use immure.Stream.{write_all}
use immure.Cipher.{
  Key, Nonce, Aead, Sealer, chunk_size, chunk_size_lem, u32_mod, emit, seal_chunk, make_room,
}
use immure.Cipher.Frame.{counted, sealed_one, chunks_from, chunks_from_full, followed}

-- Of a call that changes a sealer: `P` of its value and the sealer after it, or `Q` of its error.
abbrev pub Ends :
    {A : Type 0} → (A → Sealer → Type 0) → (IoError → Type 0) → Result IoError A × Sealer → Type 0
Ends P Q (ok x, s) = P x s
Ends P Q (err e, s) = Q e

pub Ends-map :
    {A : Type 0} {P P' : A → Sealer → Type 0} {Q Q' : IoError → Type 0}
    (r : Result IoError A × Sealer)
    → ((x : A) (s : Sealer) → P x s → P' x s)
    → ((e : IoError) → Q e → Q' e)
    → Ends P Q r
    → Ends P' Q' r
Ends-map (ok x, s) f g h = f x s h
Ends-map (err e, s) f g h = g e h

-- The destination does not fail, and no more than a chunk is pending.
pub record IsReady (s : Sealer) : Type 0 where
  pub calm : s.dst.troubles ≡ []
  pub bounded : length s.pending ≤ chunk_size

module _ (a : Aead) where
  -- What the destination holds in the end, if `bytes` come after what the sealer has.
  abbrev pub outcome : Sealer → List ℕ → Result IoError (List ℕ)
  outcome s bytes = do
    chunks ← chunks_from a s.key s.nonce s.number (s.pending ++ bytes)
    ok (s.dst.written ++ chunks)

  -- The sealer after a chunk went out.
  abbrev pub sent : Sealer → ℕ → List ℕ → Sealer
  sent s count sealed = record s {
    number = s.number + 1;
    pending = drop count s.pending;
    dst = record s.dst { written = s.dst.written ++ sealed };
  }

  emit_lem :
      (o : Option (List ℕ)) (s : Sealer)
      → s.dst.troubles ≡ []
      → Ends
          (λ u s'.
            (sealed : List ℕ) × (counted a s.key s.nonce s.number o ≡ ok sealed)
            × (s' ≡ sent s 0 sealed))
          (λ e. counted a s.key s.nonce s.number o ≡ err e)
          (emit a o s)
  unfolding emit write_all
  emit_lem none s calm = refl
  emit_lem (some sealed) s calm = elim (Bool-cases (ltb (s.number + 1) u32_mod)) [
    | inl fits ↦ rw (fits, calm) (sealed, refl, refl)
    | inr over ↦ rw over refl
  ]

  pub seal_chunk_lem :
      (s : Sealer) (count : ℕ) (last : Bool)
      → s.dst.troubles ≡ []
      → Ends
          (λ u s'.
            (sealed : List ℕ) × (sealed_one a s.key s.nonce s.number last (take count s.pending)
              ≡ ok sealed)
            × (s' ≡ sent s count sealed))
          (λ e. sealed_one a s.key s.nonce s.number last (take count s.pending) ≡ err e)
          (seal_chunk a count last s)
  unfolding seal_chunk sealed_one
  seal_chunk_lem s count last calm = emit_lem _ (record s { pending = drop count s.pending }) calm

  -- A full buffer goes out as a chunk of its own, whatever follows.
  full_first :
      (key : Key) (nonce : Nonce) (number : ℕ) (front bytes : List ℕ)
      → length front ≡ chunk_size
      → chunks_from a key nonce number (front ++ bytes)
        ≡ followed
            (sealed_one a key nonce number false front)
            (chunks_from a key nonce (number + 1) bytes)
  full_first key nonce number front bytes h =
      chunks_from_full a key nonce number (front ++ bytes)
        (omega (arith, length-append front bytes))
      ∙ ap
          (λ x.
            followed (sealed_one a key nonce number false x)
              (chunks_from a key nonce (number + 1) (drop chunk_size (front ++ bytes))))
          (take-append_length front bytes chunk_size (sym h))
      ∙ ap
          (λ x.
            followed (sealed_one a key nonce number false front)
              (chunks_from a key nonce (number + 1) x))
          (drop-append_length front bytes chunk_size (sym h))

  written_after :
      (w c : List ℕ) (r : Result IoError (List ℕ))
      → (do chunks ← (do rest ← r; ok (c ++ rest)); ok (w ++ chunks))
        ≡ (do chunks ← r; ok ((w ++ c) ++ chunks))
  written_after w c (ok rest) = ap ok (sym (append_assoc w c rest))
  written_after w c (err e) = refl

  -- A call after which there is room for more, and that changes nothing of the outcome.
  abbrev pub MakesRoom : Sealer → Result IoError (Unit {0}) × Sealer → Type 0
  MakesRoom s =
      Ends
        (λ u s'.
          IsReady s'
          × (length s'.pending < chunk_size)
          × ((bytes : List ℕ) → outcome s' bytes ≡ outcome s bytes))
        (λ e. (bytes : List ℕ) → outcome s bytes ≡ err e)

  module _ (s : Sealer) (w : IsReady s) (full : length s.pending ≡ chunk_size) where
    outcome_full :
        (bytes : List ℕ) (r : Result IoError (List ℕ))
        → sealed_one a s.key s.nonce s.number false (take chunk_size s.pending) ≡ r
        → outcome s bytes ≡ (do
          chunks ← followed r (chunks_from a s.key s.nonce (s.number + 1) bytes)
          ok (s.dst.written ++ chunks))
    outcome_full bytes r e =
        ap (λ x. x >>= λ chunks. ok (s.dst.written ++ chunks))
          (full_first s.key s.nonce s.number s.pending bytes full
            ∙ ap (λ x. followed x (chunks_from a s.key s.nonce (s.number + 1) bytes))
                (ap (sealed_one a s.key s.nonce s.number false)
                    (sym (take_all chunk_size s.pending (omega arith)))
                  ∙ e))

    sent_makes_room :
        (sealed : List ℕ)
        → sealed_one a s.key s.nonce s.number false (take chunk_size s.pending) ≡ ok sealed
        → IsReady (sent s chunk_size sealed)
          × (length (drop chunk_size s.pending) < chunk_size)
          × ((bytes : List ℕ) → outcome (sent s chunk_size sealed) bytes ≡ outcome s bytes)
    sent_makes_room sealed e =
        let none_left = drop_all chunk_size s.pending (omega arith) in
        (
          record { calm = w.calm; bounded = omega (arith, length-drop chunk_size s.pending) },
          omega (arith, length-drop chunk_size s.pending, chunk_size_lem),
          λ bytes.
              ap
                (λ x. chunks_from a s.key s.nonce (s.number + 1) (x ++ bytes) >>= λ chunks.
                  ok ((s.dst.written ++ sealed) ++ chunks))
                none_left
              ∙ sym (
                  written_after s.dst.written sealed
                    (chunks_from a s.key s.nonce (s.number + 1) bytes))
              ∙ sym (outcome_full bytes (ok sealed) e),
        )

    make_room_full : MakesRoom s (seal_chunk a chunk_size false s)
    make_room_full =
        Ends-map (seal_chunk a chunk_size false s)
          (λ u s' h.
            subst
              (λ k.
                IsReady k
                × (length k.pending < chunk_size)
                × ((bytes : List ℕ) → outcome k bytes ≡ outcome s bytes))
              (sym h.2) (sent_makes_room h.0 h.1))
          (λ e h bytes. outcome_full bytes (err e) h) (seal_chunk_lem s chunk_size false w.calm)

  pub make_room_lem : (s : Sealer) → IsReady s → MakesRoom s (make_room a s)
  unfolding make_room
  make_room_lem s w = elim (Bool-cases (length s.pending == chunk_size)) [
    | inl full ↦ rw full (make_room_full s w ((==_iff _ _).0 full))
    | inr more ↦ rw more (w, ground (arith, w.bounded), λ bytes. refl)
  ]
