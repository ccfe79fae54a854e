-- ===== src/Cipher/Opener/Step.antt =====
-- One round of `Opener` of src/crypt/cipher.rs, `next_chunk`, over a source that does not fail.
use mathlib.Core.Path.{subst}
use immure.Prelude.{
  ℕ, ◌+◌, ◌-◌, ◌≤◌, ◌<◌, ◌≡◌, refl, ap, sym, ◌∙◌, Bool, true, false, ◌&&◌, Option, none, some, List,
  [], append-nil, length, length-take, length-drop, take, drop, take_all, ltb, ltb→lt,
  if◌then◌else◌, Bool-cases, ◌⊎◌, inl, inr, arith,
}
use immure.Error.{IoError, Result, ok, err}
use immure.Stream.{Source}
use immure.Stream.Fill.{bytes_of, IsFilled}
use immure.Cipher.{
  Key, Nonce, Aead, chunk_nonce, sealed_chunk_size, sealed_chunk_size_lem, tag_size, u32_mod,
}
use immure.Cipher.Frame.{followed}
use immure.Cipher.Opener.{Opener, spoil, accept, on_chunk}
use immure.Cipher.Opener.Chunks.{
  IsAead, uncounted, opened_one, opened_from, opened_from_last, opened_from_full,
}
use immure.Cipher.Opener.Head.{Gives, Gives-map, IsLive, to_come, source_rest, ahead, ok_injective}

module _ (a : Aead) where
  -- One more chunk was opened: nothing of what is to come has changed, and there is something to
  -- hand out unless it was the last.
  abbrev pub size_ahead : Opener → ℕ
  size_ahead s = length s.plain - s.taken + length (bytes_of s.src)

  abbrev pub ChunkRead : Opener → Result IoError (Unit {0}) × Opener → Type 0
  ChunkRead s =
      Gives
        (λ u s'.
          IsLive s'
          × (s'.taken ≡ 0)
          × (0 < length s'.plain ⊎ s'.done ≡ true)
          × (size_ahead s' ≤ length (bytes_of s.src))
          × (source_rest a s ≡ ahead a s'))
        (λ e. source_rest a s ≡ err e)

  accept_lem :
      (s : Opener) (nonce : Nonce) (number : ℕ) (last : Bool) (o : Option (List ℕ))
      → Gives
          (λ u s'.
            (plain : List ℕ) × (uncounted a s.key nonce number o ≡ ok plain)
            × (o ≡ some plain)
            × (s' ≡ record s { plain = plain; number = number + 1; taken = 0; done = last }))
          (λ e. uncounted a s.key nonce number o ≡ err e)
          (accept o number last s)
  unfolding accept spoil
  accept_lem s nonce number last none = refl
  accept_lem s nonce number last (some plain) = elim (Bool-cases (ltb (number + 1) u32_mod)) [
    | inl fits ↦ rw fits (plain, refl, refl, refl)
    | inr over ↦ rw over refl
  ]

  -- The opener after a chunk.
  abbrev opened : Opener → Source → List ℕ → Bool → Opener
  opened s src plain last = record s {
    plain = plain;
    number = s.number + 1;
    taken = 0;
    src = src;
    done = last;
  }

  abbrev is_last : List ℕ → Bool
  is_last sealed = ltb (length sealed) sealed_chunk_size

  on_chunk_lem :
      (s : Opener) (nonce : Nonce) (sealed : List ℕ) (src : Source)
      → Gives
          (λ u s'.
            (plain : List ℕ) × (opened_one a s.key nonce s.number (is_last sealed) sealed
              ≡ ok plain)
            × (a.decrypt s.key (chunk_nonce nonce s.number (is_last sealed)) sealed ≡ some plain)
            × (s' ≡ opened s src plain (is_last sealed)))
          (λ e. opened_one a s.key nonce s.number (is_last sealed) sealed ≡ err e)
          (on_chunk a nonce s.number (ok sealed, src) s)
  unfolding on_chunk opened_one spoil
  on_chunk_lem s nonce sealed src =
      elim (Bool-cases (is_last sealed && ltb (length sealed) tag_size)) [
        | inl short ↦ rw short refl
        | inr enough ↦ rw enough (
            accept_lem (record s { src = src }) nonce s.number (is_last sealed)
              (a.decrypt s.key (chunk_nonce nonce s.number (is_last sealed)) sealed))
      ]

  -- The last chunk, and one that is not, as the description sees them.
  opened_from_step :
      (key : Key) (nonce : Nonce) (number : ℕ) (bytes sealed : List ℕ) (last : Bool)
      → sealed ≡ take sealed_chunk_size bytes
      → is_last sealed ≡ last
      → opened_from a key nonce number bytes
        ≡ followed (opened_one a key nonce number last sealed) (
            if last
            then ok []
            else opened_from a key nonce (number + 1) (drop sealed_chunk_size bytes))
  opened_from_step key nonce number bytes sealed true e l =
      opened_from_last a key nonce number bytes small
      ∙ ap (opened_one a key nonce number true)
          (sym (e ∙ take_all sealed_chunk_size bytes (omega (arith, small))))
      ∙ sym (followed_nothing (opened_one a key nonce number true sealed))
    where
      small : length bytes < sealed_chunk_size
      small = omega (arith, ltb→lt _ _ l, ap length e, length-take sealed_chunk_size bytes)

      followed_nothing : (r : Result IoError (List ℕ)) → followed r (ok []) ≡ r
      followed_nothing (ok x) = ap ok (append-nil x)
      followed_nothing (err x) = refl
  opened_from_step key nonce number bytes sealed false e l =
      opened_from_full a key nonce number bytes large
      ∙ ap
          (λ x.
            followed (opened_one a key nonce number false x)
              (opened_from a key nonce (number + 1) (drop sealed_chunk_size bytes)))
          (sym e)
    where
      not_small : (m n : ℕ) → ltb m n ≡ false → n ≤ m
      not_small m n h = ground arith

      large : sealed_chunk_size ≤ length bytes
      large = omega (arith, not_small _ _ l, ap length e, length-take sealed_chunk_size bytes)

  module _ (laws : IsAead a) (s : Opener) (nonce : Nonce) (live : IsLive s)
      (known : s.nonce ≡ some nonce) where
    source_rest_known : source_rest a s ≡ opened_from a s.key nonce s.number (bytes_of s.src)
    source_rest_known = ap (λ n. to_come a n s.key s.number (bytes_of s.src)) known

    module _ (sealed : List ℕ) (src : Source)
        (h : IsFilled sealed_chunk_size [] (bytes_of s.src) (ok sealed, src)) where
      sealed_front : sealed ≡ take sealed_chunk_size (bytes_of s.src)
      sealed_front = ok_injective a sealed _ h.got

      source_rest_step :
          source_rest a s
          ≡ followed (opened_one a s.key nonce s.number (is_last sealed) sealed) (
              if is_last sealed
              then ok []
              else opened_from a s.key nonce (s.number + 1) (bytes_of src))
      source_rest_step =
          source_rest_known
          ∙ opened_from_step s.key nonce s.number (bytes_of s.src) sealed (is_last sealed)
              sealed_front refl
          ∙ ap
              (λ x.
                followed (opened_one a s.key nonce s.number (is_last sealed) sealed)
                  (if is_last sealed then ok [] else opened_from a s.key nonce (s.number + 1) x))
              (sym h.rest)

      ahead-opened :
          (plain : List ℕ) (last : Bool)
          → followed
              (ok plain)
              (if last then ok [] else opened_from a s.key nonce (s.number + 1) (bytes_of src))
            ≡ ahead a (opened s src plain last)
      ahead-opened plain last =
          ap
            (λ n.
              followed (ok plain)
                (if last then ok [] else to_come a n s.key (s.number + 1) (bytes_of src)))
            (sym known)

      some_to_hand_out :
          (plain : List ℕ)
          → length sealed ≡ length plain + tag_size
          → 0 < length plain ⊎ is_last sealed ≡ true
      some_to_hand_out plain size = elim (Bool-cases (is_last sealed)) [
        | inl last ↦ inr last
        | inr more ↦ inl (omega (arith, at_least more, sealed_chunk_size_lem))
      ]
        where
          at_least : is_last sealed ≡ false → sealed_chunk_size ≤ length sealed
          at_least more = ground arith

      opened_lem :
          (plain : List ℕ)
          → length sealed ≡ length plain + tag_size
          → IsLive (opened s src plain (is_last sealed))
            × (length plain - 0 + length (bytes_of src) ≤ length (bytes_of s.src))
      opened_lem plain size = (
        record {
          unspoiled = live.unspoiled;
          clean = h.clean;
          within = omega arith;
          from_start = λ fresh. absurd (no_nonce fresh known);
        },
        omega (
          arith,
          ap length sealed_front,
          ap length h.rest,
          length-take sealed_chunk_size (bytes_of s.src),
          length-drop sealed_chunk_size (bytes_of s.src),
        ),
      )
        where
          no_nonce : s.nonce ≡ none → s.nonce ≡ some nonce → ⊥
          no_nonce e k = cc

    pub chunk_read :
        (r : Result IoError (List ℕ) × Source)
        → IsFilled sealed_chunk_size [] (bytes_of s.src) r
        → ChunkRead s (on_chunk a nonce s.number r s)
    chunk_read (err e, src) h = absurd (not_ok h.got)
      where
        not_ok :
            ◌≡◌ {A = Result IoError (List ℕ)} (err e) (ok (take sealed_chunk_size (bytes_of s.src)))
            → ⊥
        not_ok h = cc
    chunk_read (ok sealed, src) h =
        Gives-map (on_chunk a nonce s.number (ok sealed, src) s)
          (λ u s' k.
            let size =
              laws.shrinks s.key (chunk_nonce nonce s.number (is_last sealed)) sealed k.0 k.2 in
            let (alive, less) = opened_lem sealed src h k.0 size in
            subst (λ x. ChunkRead s (ok u, x)) (sym k.3)
              (
                alive,
                refl,
                some_to_hand_out sealed src h k.0 size,
                less,
                source_rest_step sealed src h
                    ∙ ap
                        (λ x. followed x (
                          if is_last sealed
                          then ok []
                          else opened_from a s.key nonce (s.number + 1) (bytes_of src)))
                        k.1
                    ∙ ahead-opened sealed src h k.0 (is_last sealed),
              ))
          (λ e k.
            source_rest_step sealed src h
            ∙ ap
                (λ x. followed x (
                  if is_last sealed
                  then ok []
                  else opened_from a s.key nonce (s.number + 1) (bytes_of src)))
                k)
          (on_chunk_lem s nonce sealed src)
