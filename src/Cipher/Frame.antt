-- ===== src/Cipher/Frame.antt =====
-- The frame of src/crypt/cipher.rs as one recursion over the content: full chunks, and a last one
-- that is never full. This is the description that `Sealer` is held against in `Cipher.Seal`.
use immure.Prelude.{
  refl, ℕ, zero, suc, ◌+◌, ◌≤◌, ◌<◌, ◌≡◌, Bool, true, false, Option, none, some, List, [], ◌∷◌,
  ◌++◌, length, length-drop, take, drop, ltb, if◌then◌else◌, Bool-cases, inl, inr, arith,
}
use immure.Error.{IoError, wrapped, too_many_chunks, Result, ok, err, ◌>>=◌}
use immure.Cipher.{
  Key, Nonce, Aead, chunk_nonce, chunk_size, chunk_size_lem, magic, version, sealing_error, u32_mod,
}

-- The bytes of `first`, and those of `later` behind them.
abbrev pub followed : Result IoError (List ℕ) → Result IoError (List ℕ) → Result IoError (List ℕ)
followed first later = do chunk ← first; rest ← later; ok (chunk ++ rest)

pub followed-eq_ok :
    (first later : Result IoError (List ℕ)) (bytes : List ℕ)
    → followed first later ≡ ok bytes
    → (c r : List ℕ) × (first ≡ ok c) × (later ≡ ok r) × (bytes ≡ c ++ r)
followed-eq_ok (ok c) (ok r) bytes h = (c, r, refl, refl, ground arith)
followed-eq_ok (ok c) (err e) bytes h = cc
followed-eq_ok (err e) later bytes h = cc

module _ (a : Aead) (key : Key) (nonce : Nonce) where
  abbrev pub counted : ℕ → Option (List ℕ) → Result IoError (List ℕ)
  counted number none = err sealing_error
  counted number (some sealed) =
      if ltb (number + 1) u32_mod then ok sealed else err (wrapped too_many_chunks)

  -- One chunk under its own nonce. The count of chunks has to fit a `u32`.
  unfoldable pub sealed_one : ℕ → Bool → List ℕ → Result IoError (List ℕ)
  sealed_one number last bytes =
      counted number (a.encrypt key (chunk_nonce nonce number last) bytes)

  unfoldable pub sealed_chunks : ℕ → ℕ → List ℕ → Result IoError (List ℕ)
  sealed_chunks zero number bytes = ok []
  sealed_chunks (suc fuel) number bytes =
      let more = (do
        chunk ← sealed_one number false (take chunk_size bytes)
        rest ← sealed_chunks fuel (number + 1) (drop chunk_size bytes)
        ok (chunk ++ rest)) in
      if ltb (length bytes) chunk_size then sealed_one number true bytes else more

  -- More fuel than bytes is as good as any.
  sealed_chunks_fuel :
      (f g number : ℕ) (bytes : List ℕ)
      → length bytes < f
      → length bytes < g
      → sealed_chunks f number bytes ≡ sealed_chunks g number bytes
  unfolding sealed_chunks
  sealed_chunks_fuel zero g number bytes h k = absurd (omega arith)
  sealed_chunks_fuel (suc f) zero number bytes h k = absurd (omega arith)
  sealed_chunks_fuel (suc f) (suc g) number bytes h k =
      elim (Bool-cases (ltb (length bytes) chunk_size)) [
        | inl short ↦ rw short
        | inr full ↦ ground (
          arith,
          chunk_size_lem,
          sealed_chunks_fuel f g (number + 1) (drop chunk_size bytes),
          length-drop chunk_size bytes,
        )
      ]

  -- The chunks of `bytes`, counted from `number`.
  unfoldable pub chunks_from : ℕ → List ℕ → Result IoError (List ℕ)
  chunks_from number bytes = sealed_chunks (suc (length bytes)) number bytes

  pub chunks_from_last :
      (number : ℕ) (bytes : List ℕ)
      → length bytes < chunk_size
      → chunks_from number bytes ≡ sealed_one number true bytes
  unfolding chunks_from sealed_chunks
  chunks_from_last number bytes h = ground arith

  pub chunks_from_full :
      (number : ℕ) (bytes : List ℕ)
      → chunk_size ≤ length bytes
      → chunks_from number bytes
        ≡ followed
            (sealed_one number false (take chunk_size bytes))
            (chunks_from (number + 1) (drop chunk_size bytes))
  unfolding chunks_from sealed_chunks
  chunks_from_full number bytes h = ground (
    arith,
    chunk_size_lem,
    sealed_chunks_fuel (length bytes) (suc (length (drop chunk_size bytes))) (number + 1)
        (drop chunk_size bytes),
    length-drop chunk_size bytes,
  )

  -- A whole sealed blob: the header with the nonce in the clear, and the chunks.
  unfoldable pub framed : List ℕ → Result IoError (List ℕ)
  unfolding chunks_from
  framed bytes = do chunks ← chunks_from 0 bytes; ok ((magic ++ (version ∷ nonce.bytes)) ++ chunks)
