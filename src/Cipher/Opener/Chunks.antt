-- ===== src/Cipher/Opener/Chunks.antt =====
-- The opening of a blob of src/crypt/cipher.rs as one recursion over the sealed bytes, the
-- counterpart of `Cipher.Frame`.
use mathlib.Core.Path.{subst}
use immure.Prelude.{
  ℕ, zero, suc, ◌+◌, ◌-◌, ◌*◌, ◌≤◌, ◌<◌, text_eq, ◌≡◌, ap, sym, ◌∙◌, Bool, true, false, not, ◌&&◌,
  ◌||◌, Option, none, some, List, [], ◌++◌, length, length-append, length-take, length-drop, take,
  drop, take-append-drop, take-append_length, drop-append_length, ltb, ◌==◌, if◌then◌else◌,
  Bool-cases, inl, inr, arith,
}
use immure.Error.{IoError, wrapped, Error, Result, ok, err, ◌>>=◌}
use immure.Cipher.{
  Key, Nonce, Aead, chunk_nonce, chunk_size, chunk_size_lem, sealed_chunk_size,
  sealed_chunk_size_lem, tag_size, nonce_len, header_size, magic, version, u32_mod,
}
use immure.Cipher.Frame.{
  sealed_one, chunks_from, chunks_from_last, chunks_from_full, followed, followed-eq_ok,
}
use immure.Cipher.Opener.{spoiled_error, failure, spoiled_too_many, first_or}

-- What is relied on of the cipher: a chunk of the program's size can be sealed, the tag adds sixteen
-- bytes, and what was sealed opens under the same key and nonce.
pub record IsAead (a : Aead) : Type 0 where
  pub seals :
      (key : Key) (nonce plain : List ℕ)
      → length plain ≤ chunk_size
      → (sealed : List ℕ) × (a.encrypt key nonce plain ≡ some sealed)
        × (length sealed ≡ length plain + tag_size)
        × (a.decrypt key nonce sealed ≡ some plain)
  pub shrinks :
      (key : Key) (nonce sealed plain : List ℕ)
      → a.decrypt key nonce sealed ≡ some plain
      → length sealed ≡ length plain + tag_size

room_left :
    (c n l : ℕ)
    → c ≡ 65536
    → c ≤ l
    → l < (u32_mod - 1 - n) * c
    → l - c < (u32_mod - 1 - (n + 1)) * c
room_left c n l e =
    subst (λ x. x ≤ l → l < (u32_mod - 1 - n) * x → l - x < (u32_mod - 1 - (n + 1)) * x) (sym e)
      (λ h k. omega arith)

module _ (a : Aead) (key : Key) (nonce : Nonce) where
  abbrev pub uncounted : ℕ → Option (List ℕ) → Result IoError (List ℕ)
  uncounted number none = err (spoiled_error (failure number))
  uncounted number (some plain) =
      if ltb (number + 1) u32_mod then ok plain else err (spoiled_error spoiled_too_many)

  unfoldable pub opened_one : ℕ → Bool → List ℕ → Result IoError (List ℕ)
  opened_one number last sealed =
      if last && ltb (length sealed) tag_size
      then err (spoiled_error (failure number))
      else uncounted number (a.decrypt key (chunk_nonce nonce number last) sealed)

  unfoldable pub opened_chunks : ℕ → ℕ → List ℕ → Result IoError (List ℕ)
  opened_chunks zero number bytes = ok []
  opened_chunks (suc fuel) number bytes =
      let more = (do
        plain ← opened_one number false (take sealed_chunk_size bytes)
        rest ← opened_chunks fuel (number + 1) (drop sealed_chunk_size bytes)
        ok (plain ++ rest)) in
      if ltb (length bytes) sealed_chunk_size then opened_one number true bytes else more

  opened_chunks_fuel :
      (f g number : ℕ) (bytes : List ℕ)
      → length bytes < f
      → length bytes < g
      → opened_chunks f number bytes ≡ opened_chunks g number bytes
  unfolding opened_chunks
  opened_chunks_fuel zero g number bytes h k = absurd (omega arith)
  opened_chunks_fuel (suc f) zero number bytes h k = absurd (omega arith)
  opened_chunks_fuel (suc f) (suc g) number bytes h k = ground (
    arith,
    sealed_chunk_size_lem,
    opened_chunks_fuel f g (number + 1) (drop sealed_chunk_size bytes),
    length-drop sealed_chunk_size bytes,
  )

  -- The content of the sealed chunks in `bytes`, counted from `number`.
  unfoldable pub opened_from : ℕ → List ℕ → Result IoError (List ℕ)
  opened_from number bytes = opened_chunks (suc (length bytes)) number bytes

  pub opened_from_last :
      (number : ℕ) (bytes : List ℕ)
      → length bytes < sealed_chunk_size
      → opened_from number bytes ≡ opened_one number true bytes
  unfolding opened_from opened_chunks
  opened_from_last number bytes h = ground arith

  pub opened_from_full :
      (number : ℕ) (bytes : List ℕ)
      → sealed_chunk_size ≤ length bytes
      → opened_from number bytes
        ≡ followed
            (opened_one number false (take sealed_chunk_size bytes))
            (opened_from (number + 1) (drop sealed_chunk_size bytes))
  unfolding opened_from opened_chunks
  opened_from_full number bytes h = ground (
    arith,
    sealed_chunk_size_lem,
    opened_chunks_fuel (length bytes) (suc (length (drop sealed_chunk_size bytes))) (number + 1)
        (drop sealed_chunk_size bytes),
    length-drop sealed_chunk_size bytes,
  )

  module _ (laws : IsAead a) where
    -- A sealed chunk has the tag's length more, and opens to what was sealed.
    opened-sealed_one :
        (number : ℕ) (last : Bool) (plain sealed : List ℕ)
        → length plain ≤ chunk_size
        → sealed_one a key nonce number last plain ≡ ok sealed
        → (length sealed ≡ length plain + tag_size) × (opened_one number last sealed ≡ ok plain)
    unfolding sealed_one opened_one
    opened-sealed_one number last plain sealed h e =
        let (c, encrypts, size, decrypts) =
          laws.seals key (chunk_nonce nonce number last) plain h in
        ground arith

    -- While the count fits, a chunk can be sealed.
    seals_one :
        (number : ℕ) (last : Bool) (plain : List ℕ)
        → length plain ≤ chunk_size
        → number + 1 < u32_mod
        → (sealed : List ℕ) × (sealed_one a key nonce number last plain ≡ ok sealed)
    unfolding sealed_one
    seals_one number last plain h k =
        let (c, encrypts, size, decrypts) =
          laws.seals key (chunk_nonce nonce number last) plain h in
        (c, ground arith)

    opened-chunks_fuel :
        (fuel number : ℕ) (plain sealed : List ℕ)
        → length plain < fuel
        → chunks_from a key nonce number plain ≡ ok sealed
        → opened_from number sealed ≡ ok plain
    opened-chunks_fuel zero number plain sealed h e = absurd (omega arith)
    opened-chunks_fuel (suc fuel) number plain sealed h e =
        elim (Bool-cases (ltb (length plain) chunk_size)) [
          | inl short ↦
              let small : length plain < chunk_size = ground arith in
              let (size, opens) =
                opened-sealed_one number true plain sealed (omega arith)
                  (sym (chunks_from_last a key nonce number plain small) ∙ e) in
              opened_from_last number sealed (omega (arith, chunk_size_lem, sealed_chunk_size_lem))
              ∙ opens
          | inr full ↦
              let large : chunk_size ≤ length plain = ground arith in
              let (c, r, first, later, whole) =
                followed-eq_ok (sealed_one a key nonce number false (take chunk_size plain))
                  (chunks_from a key nonce (number + 1) (drop chunk_size plain)) sealed
                  (sym (chunks_from_full a key nonce number plain large) ∙ e) in
              let (size, opens) =
                opened-sealed_one number false (take chunk_size plain) c
                  (omega (arith, length-take chunk_size plain)) first in
              let exact : sealed_chunk_size ≡ length c =
                omega
                  (arith, length-take chunk_size plain, chunk_size_lem, sealed_chunk_size_lem) in
              subst (λ s. opened_from number s ≡ ok plain) (sym whole)
                (opened_from_full number (c ++ r) (omega (arith, length-append c r))
                  ∙ ap
                      (λ x.
                        followed (opened_one number false x)
                          (opened_from (number + 1) (drop sealed_chunk_size (c ++ r))))
                      (take-append_length c r sealed_chunk_size exact)
                  ∙ ap (λ x. followed (opened_one number false c) (opened_from (number + 1) x))
                      (drop-append_length c r sealed_chunk_size exact)
                  ∙ ap (λ x. followed x (opened_from (number + 1) r)) opens
                  ∙ ap (followed (ok (take chunk_size plain))) (
                      opened-chunks_fuel fuel (number + 1) (drop chunk_size plain) r
                        (omega (arith, length-drop chunk_size plain, chunk_size_lem)) later)
                  ∙ ap ok (take-append-drop chunk_size plain))
        ]

    pub opened-chunks_from :
        (number : ℕ) (plain sealed : List ℕ)
        → chunks_from a key nonce number plain ≡ ok sealed
        → opened_from number sealed ≡ ok plain
    opened-chunks_from number plain sealed e =
        opened-chunks_fuel (suc (length plain)) number plain sealed (omega arith) e

    seals_fuel :
        (fuel number : ℕ) (plain : List ℕ)
        → length plain < fuel
        → length plain < (u32_mod - 1 - number) * chunk_size
        → (sealed : List ℕ) × (chunks_from a key nonce number plain ≡ ok sealed)
    seals_fuel zero number plain h k = absurd (omega arith)
    seals_fuel (suc fuel) number plain h k = elim (Bool-cases (ltb (length plain) chunk_size)) [
      | inl short ↦
          let (c, e) = seals_one number true plain (ground arith) (counts k) in
          (c, chunks_from_last a key nonce number plain (ground arith) ∙ e)
      | inr full ↦
          let (c, e) =
            seals_one number false (take chunk_size plain)
              (omega (arith, length-take chunk_size plain)) (counts k) in
          let (r, e') =
            seals_fuel fuel (number + 1) (drop chunk_size plain) (shorter full) (still full k) in
          (
            c ++ r,
            chunks_from_full a key nonce number plain (ground arith)
                ∙ ap
                    (λ x. followed x (chunks_from a key nonce (number + 1) (drop chunk_size plain)))
                    e
                ∙ ap (followed (ok c)) e',
          )
    ]
      where
        counts : length plain < (u32_mod - 1 - number) * chunk_size → number + 1 < u32_mod
        counts k = omega (arith, rw chunk_size_lem at k)

        large : ltb (length plain) chunk_size ≡ false → chunk_size ≤ length plain
        large full = ground arith

        shorter : ltb (length plain) chunk_size ≡ false → length (drop chunk_size plain) < fuel
        shorter full = omega (arith, length-drop chunk_size plain, chunk_size_lem, large full)

        still :
            ltb (length plain) chunk_size ≡ false
            → length plain < (u32_mod - 1 - number) * chunk_size
            → length (drop chunk_size plain) < (u32_mod - 1 - (number + 1)) * chunk_size
        still full k =
            rw (length-drop chunk_size plain)
              (room_left chunk_size number (length plain) chunk_size_lem (large full) k)

    -- Sealing fails on no content that is short enough for the count of chunks.
    pub chunks_from_total :
        (plain : List ℕ)
        → length plain < (u32_mod - 1) * chunk_size
        → (sealed : List ℕ) × (chunks_from a key nonce 0 plain ≡ ok sealed)
    chunks_from_total plain h = seals_fuel (suc (length plain)) 0 plain (omega arith) h

module _ (a : Aead) (key : Key) where
  unfoldable pub opened_head : List ℕ → List ℕ → Result IoError (List ℕ)
  unfolding opened_from spoiled_error failure
  opened_head head body =
      if ltb (length head) (header_size + nonce_len)
        || not (text_eq (take (length magic) head) magic)
      then err (wrapped Error.unsealable)
      else (let v = first_or 0 (drop (length magic) head) in
          if not (v == version)
          then err (wrapped (Error.frame_version v))
          else opened_from a key (record { bytes = drop header_size head }) 0 body)

  -- What a whole blob opens to: the header is judged first, and the key is tried after it.
  unfoldable pub opened_blob : List ℕ → Result IoError (List ℕ)
  unfolding opened_head
  opened_blob bytes =
      opened_head (take (header_size + nonce_len) bytes) (drop (header_size + nonce_len) bytes)
