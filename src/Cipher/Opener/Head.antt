-- ===== src/Cipher/Opener/Head.antt =====
-- What the reads of an `Opener` of src/crypt/cipher.rs have ahead, and how it reads the head of a
-- blob, over a source that does not fail.
use immure.Prelude.{
  ℕ, ◌+◌, ◌≤◌, text_eq, ◌≡◌, refl, ap, sym, ◌∙◌, not, ◌||◌, Option, none, some, List, [], length,
  length-drop, take, drop, ltb, ◌==◌, if◌then◌else◌, Bool-cases, inl, inr, arith,
}
use immure.Error.{IoError, Result, ok, err}
use immure.Stream.{Source, fill}
use immure.Stream.Fill.{IsClean, bytes_of, IsFilled, fill-IsFilled}
use immure.Cipher.{Key, Nonce, Aead, nonce_len, header_size, magic, version}
use immure.Cipher.Frame.{followed}
use immure.Cipher.Opener.{Opener, spoil, check_head, on_head, head_from, read_head, first_or}
use immure.Cipher.Opener.Chunks.{opened_from, opened_head, opened_blob}

-- Of a call that changes an opener: `P` of its value and the opener after it, or `Q` of its error.
abbrev pub Gives :
    {A : Type 0} → (A → Opener → Type 0) → (IoError → Type 0) → Result IoError A × Opener → Type 0
Gives P Q (ok x, s) = P x s
Gives P Q (err e, s) = Q e

pub Gives-map :
    {A : Type 0} {P P' : A → Opener → Type 0} {Q Q' : IoError → Type 0}
    (r : Result IoError A × Opener)
    → ((x : A) (s : Opener) → P x s → P' x s)
    → ((e : IoError) → Q e → Q' e)
    → Gives P Q r
    → Gives P' Q' r
Gives-map (ok x, s) f g h = f x s h
Gives-map (err e, s) f g h = g e h

-- The opener was not spoiled, its source does not fail, and `taken` stands within the buffer.
pub record IsLive (s : Opener) : Type 0 where
  pub unspoiled : s.spoiled ≡ none
  pub clean : IsClean s.src
  pub within : s.taken ≤ length s.plain
  pub from_start : s.nonce ≡ none → s.number ≡ 0

module _ (a : Aead) where
  -- What is still to come from the source.
  abbrev pub to_come : Option Nonce → Key → ℕ → List ℕ → Result IoError (List ℕ)
  to_come none key number bytes = opened_blob a key bytes
  to_come (some nonce) key number bytes = opened_from a key nonce number bytes

  abbrev pub source_rest : Opener → Result IoError (List ℕ)
  source_rest s = to_come s.nonce s.key s.number (bytes_of s.src)

  abbrev pub after_plain : Opener → Result IoError (List ℕ)
  after_plain s = if s.done then ok [] else source_rest s

  -- What the reads to come will give, all together.
  abbrev pub ahead : Opener → Result IoError (List ℕ)
  ahead s = followed (ok (drop s.taken s.plain)) (after_plain s)

  check_head_lem :
      (head : List ℕ) (s : Opener)
      → Gives
          (λ nonce s'.
            (s' ≡ record s { nonce = some nonce })
            × ((body : List ℕ) → opened_head a s.key head body ≡ opened_from a s.key nonce 0 body))
          (λ e. (body : List ℕ) → opened_head a s.key head body ≡ err e)
          (check_head head s)
  unfolding check_head opened_head spoil
  check_head_lem head s =
      elim (Bool-cases (
        ltb (length head) (header_size + nonce_len)
        || not (text_eq (take (length magic) head) magic))) [
          | inl bad ↦ rw bad (λ body. refl)
          | inr good ↦ elim (Bool-cases (not (first_or 0 (drop (length magic) head) == version))) [
            | inl newer ↦ rw (good, newer) (λ body. refl)
            | inr same ↦ rw (good, same) (refl, λ body. refl)
          ]
        ]

  -- The header is read once; from then on its nonce counts.
  abbrev pub HeadRead : Opener → Result IoError Nonce × Opener → Type 0
  HeadRead s =
      Gives
        (λ nonce s'.
          (src : Source) × (s' ≡ record s { nonce = some nonce; src = src })
          × IsClean src
          × (length (bytes_of src) ≤ length (bytes_of s.src))
          × (source_rest s ≡ opened_from a s.key nonce s.number (bytes_of src)))
        (λ e. source_rest s ≡ err e)

  pub ok_injective : (x y : List ℕ) → ◌≡◌ {A = Result IoError (List ℕ)} (ok x) (ok y) → x ≡ y
  ok_injective x y e = ground arith

  blob_parts :
      (key : Key) (bytes : List ℕ)
      → opened_blob a key bytes
        ≡ opened_head a key
            (take (header_size + nonce_len) bytes)
            (drop (header_size + nonce_len) bytes)
  unfolding opened_blob
  blob_parts key bytes = refl

  module _ (s : Opener) (fresh : s.nonce ≡ none) (zeroth : s.number ≡ 0) where
    source_rest_head :
        (head : List ℕ) (src : Source)
        → IsFilled (header_size + nonce_len) [] (bytes_of s.src) (ok head, src)
        → source_rest s ≡ opened_head a s.key head (bytes_of src)
    source_rest_head head src h =
        ap (λ n. to_come n s.key s.number (bytes_of s.src)) fresh
        ∙ blob_parts s.key (bytes_of s.src)
        ∙ ap (λ x. opened_head a s.key x (drop (header_size + nonce_len) (bytes_of s.src)))
            (sym (ok_injective head (take (header_size + nonce_len) (bytes_of s.src)) h.got))
        ∙ ap (opened_head a s.key head) (sym h.rest)

    on_head_lem :
        (r : Result IoError (List ℕ) × Source)
        → IsFilled (header_size + nonce_len) [] (bytes_of s.src) r
        → HeadRead s (on_head r s)
    unfolding on_head check_head
    on_head_lem (err e, src) h = absurd (not_ok h.got)
      where
        not_ok :
            ◌≡◌ {A = Result IoError (List ℕ)}
              (err e)
              (ok (take (header_size + nonce_len) (bytes_of s.src)))
            → ⊥
        not_ok h = cc
    on_head_lem (ok head, src) h =
        Gives-map (check_head head (record s { src = src }))
          (λ nonce s' k. (
            src,
            k.0,
            h.clean,
            omega (arith, ap length h.rest, length-drop (header_size + nonce_len) (bytes_of s.src)),
            source_rest_head head src h
                ∙ k.1 (bytes_of src)
                ∙ ap (λ n. opened_from a s.key nonce n (bytes_of src)) (sym zeroth),
          ))
          (λ e k. source_rest_head head src h ∙ k (bytes_of src))
          (check_head_lem head (record s { src = src }))

  known_nonce :
      (s : Opener) (nonce : Nonce)
      → s.nonce ≡ some nonce
      → s ≡ record s { nonce = some nonce; src = s.src }
  known_nonce s nonce e = λ i. record s { nonce = e i }

  head_from_lem :
      (s : Opener) (n : Option Nonce) → IsLive s → s.nonce ≡ n → HeadRead s (head_from n s)
  head_from_lem s none w fresh =
      unfold head_from in
      on_head_lem s fresh (w.from_start fresh) (fill (header_size + nonce_len) s.src)
        (fill-IsFilled (header_size + nonce_len) s.src w.clean)
  head_from_lem s (some nonce) w known =
      unfold head_from in
      (
        s.src,
        known_nonce s nonce known,
        w.clean,
        omega arith,
        ap (λ n. to_come n s.key s.number (bytes_of s.src)) known,
      )

  pub read_head_lem : (s : Opener) → IsLive s → HeadRead s (read_head s)
  unfolding read_head
  read_head_lem s w = head_from_lem s s.nonce w refl
