-- ===== src/Cipher/Opener/Refill.antt =====
-- How an `Opener` of src/crypt/cipher.rs refills itself before a read, over a source that does
-- not fail.
use mathlib.Core.Path.{subst}
use immure.Prelude.{
  ℕ, ◌-◌, ◌≤◌, ◌<◌, ◌≡◌, refl, ap, sym, ◌∙◌, Bool, true, false, Option, none, some, List, [],
  length, drop_all, ◌==◌, ==_iff, if◌then◌else◌, ◌⊎◌, inl, inr, arith,
}
use immure.Error.{IoError, Result, ok, err}
use immure.Exec.{Exec, continue}
use immure.Stream.{fill}
use immure.Stream.Fill.{fill-IsFilled}
use immure.Cipher.{Nonce, Aead, sealed_chunk_size}
use immure.Cipher.Frame.{followed}
use immure.Cipher.Opener.{Opener, read_head, on_chunk, next_chunk, while_empty, refill}
use immure.Cipher.Opener.Chunks.{IsAead}
use immure.Cipher.Opener.Head.{
  Gives, Gives-map, IsLive, source_rest, after_plain, ahead, HeadRead, read_head_lem,
}
use immure.Cipher.Opener.Step.{size_ahead, ChunkRead, chunk_read}

module _ (a : Aead) (laws : IsAead a) where
  after_head :
      (s : Opener) (r : Result IoError Nonce × Opener)
      → IsLive s
      → HeadRead a s r
      → ChunkRead a s
          (continue r.0 (λ nonce k. on_chunk a nonce k.number (fill sealed_chunk_size k.src) k) r.1)
  after_head s (err e, s') w h = h
  after_head s (ok nonce, s') w (src, same, clean, less, rest) =
      subst (λ k. ChunkRead a s (on_chunk a nonce k.number (fill sealed_chunk_size k.src) k))
        (sym same)
        (Gives-map (on_chunk a nonce s.number (fill sealed_chunk_size src) headed)
          (λ u k c. (c.0, c.1, c.2, omega (arith, c.3), rest ∙ c.4)) (λ e c. rest ∙ c)
          (chunk_read a laws headed nonce live refl (fill sealed_chunk_size src)
            (fill-IsFilled sealed_chunk_size src clean)))
    where
      headed : Opener
      headed = record s { nonce = some nonce; src = src }

      live : IsLive headed
      live = record {
        unspoiled = w.unspoiled;
        clean = clean;
        within = w.within;
        from_start = λ e. absurd (no_nonce e);
      }
        where
          no_nonce : ◌≡◌ {A = Option Nonce} (some nonce) none → ⊥
          no_nonce e = cc

  next_chunk_lem : (s : Opener) → IsLive s → ChunkRead a s (next_chunk a s)
  next_chunk_lem s w = unfold next_chunk in after_head s (read_head s) w (read_head_lem a s w)

  -- What `refill` leaves: as much is to come, and its answer says whether anything is at hand.
  abbrev pub Refilled : Opener → Result IoError Bool × Opener → Type 0
  Refilled s =
      Gives
        (λ more s'.
          IsLive s'
          × (ahead a s ≡ ahead a s')
          × (size_ahead a s' ≤ size_ahead a s)
          × (if more then s'.taken < length s'.plain else ahead a s ≡ ok []))
        (λ e. ahead a s ≡ err e)

  followed_nothing : (r : Result IoError (List ℕ)) → followed (ok []) r ≡ r
  followed_nothing (ok x) = refl
  followed_nothing (err x) = refl

  -- With all of the buffer handed out, the rest comes from the source alone.
  drained : (s : Opener) → (s.taken == length s.plain) ≡ true → ahead a s ≡ after_plain a s
  drained s e =
      ap (λ x. followed (ok x) (after_plain a s))
        (drop_all s.taken s.plain (omega (arith, (==_iff _ _).0 e)))
      ∙ followed_nothing (after_plain a s)

  drained_done :
      (s : Opener) → (s.taken == length s.plain) ≡ true → s.done ≡ true → ahead a s ≡ ok []
  drained_done s e d = drained s e ∙ ap (λ b. if b then ok [] else source_rest a s) d

  drained_more :
      (s : Opener)
      → (s.taken == length s.plain) ≡ true
      → s.done ≡ false
      → ahead a s ≡ source_rest a s
  drained_more s e d = drained s e ∙ ap (λ b. if b then ok [] else source_rest a s) d

  -- One round is enough where something is at hand, or nothing is to come.
  while_empty_ready :
      (s : Opener) (e d : Bool) (more : Exec IoError Opener Bool)
      → IsLive s
      → (s.taken == length s.plain) ≡ e
      → s.done ≡ d
      → 0 < length s.plain - s.taken ⊎ s.done ≡ true
      → Refilled s (while_empty e d more s)
  unfolding while_empty
  while_empty_ready s false d more w e f h = (w, refl, omega arith, below)
    where
      below : s.taken < length s.plain
      below = ground (arith, w.within)
  while_empty_ready s true true more w e f h = (w, refl, omega arith, drained_done s e f)
  while_empty_ready s true false more w e f h = absurd (ground (arith, (==_iff _ _).0 e))

  refill_once :
      (s : Opener)
      → IsLive s
      → 0 < length s.plain - s.taken ⊎ s.done ≡ true
      → Refilled s (refill a 1 s)
  refill_once s w h =
      unfold refill in while_empty_ready s (s.taken == length s.plain) s.done _ w refl refl h

  after_chunk :
      (s : Opener) (r : Result IoError (Unit {0}) × Opener)
      → (s.taken == length s.plain) ≡ true
      → s.done ≡ false
      → ChunkRead a s r
      → Refilled s (continue r.0 (λ _. refill a 1) r.1)
  after_chunk s (err x, s') e d h = drained_more s e d ∙ h
  after_chunk s (ok u, s') e d (w, start, some_left, less, rest) =
      Gives-map (refill a 1 s')
        (λ more k c.
          (c.0, drained_more s e d ∙ rest ∙ c.1, omega (arith, c.2), with_answer more k c.3))
        (λ x c. drained_more s e d ∙ rest ∙ c) (refill_once s' w (at_hand some_left))
    where
      at_hand :
          0 < length s'.plain ⊎ s'.done ≡ true → 0 < length s'.plain - s'.taken ⊎ s'.done ≡ true
      at_hand (inl p) = inl (omega (arith, start))
      at_hand (inr q) = inr q

      with_answer :
          (more : Bool) (k : Opener)
          → (if more then k.taken < length k.plain else ahead a s' ≡ ok [])
          → (if more then k.taken < length k.plain else ahead a s ≡ ok [])
      with_answer true k c = c
      with_answer false k c = drained_more s e d ∙ rest ∙ c

  while_empty_lem :
      (s : Opener) (e d : Bool)
      → IsLive s
      → (s.taken == length s.plain) ≡ e
      → s.done ≡ d
      → Refilled s
          (while_empty e d (λ k. (let r = next_chunk a k in continue r.0 (λ _. refill a 1) r.1)) s)
  while_empty_lem s true false w e d =
      unfold while_empty in after_chunk s (next_chunk a s) e d (next_chunk_lem s w)
  while_empty_lem s true true w e d = while_empty_ready s true true _ w e d (inr d)
  while_empty_lem s false d w e f = while_empty_ready s false d _ w e f (inl (room e w.within))
    where
      room :
          (s.taken == length s.plain) ≡ false
          → s.taken ≤ length s.plain
          → 0 < length s.plain - s.taken
      room e h = ground arith

  pub refill_lem : (s : Opener) → IsLive s → Refilled s (refill a 2 s)
  refill_lem s w = unfold refill in while_empty_lem s (s.taken == length s.plain) s.done w refl refl
  -- A read hands out a part of what is to come, or nothing where nothing is.
