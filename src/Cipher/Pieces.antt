-- ===== src/Cipher/Pieces.antt =====
-- Writing pieces to a `Sealer` of src/crypt/cipher.rs, and finishing it.
use immure.Prelude.{
  ℕ, zero, suc, ◌-◌, ◌≤◌, ◌<◌, min, ◌≡◌, refl, ap, sym, ◌∙◌, true, false, Option, some, List, [],
  ◌∷◌, ◌++◌, append_assoc, append-nil, length, length-append, length-take, length-drop, take, drop,
  take-append-drop, take_all, concat, ◌==◌, if◌then◌else◌, arith,
}
use immure.Error
use immure.Error.{IoError, os, write_zero, wrapped, Error, Result, ok, err}
use immure.Exec
use immure.Exec.{Exec, continue, ◌>>=◌, ◌>>◌, pure}
use immure.Stream.{write_all}
use immure.Cipher.{
  Key, Nonce, Aead, Sealer, sealer, vec, start_sealer, chunk_size, seal_chunk, take_in, make_room,
  write, last_chunk, finish, write_loop, write_whole, nonce_random, seal, unwrap_io, sealed_result,
}
use immure.Cipher.Frame.{sealed_one, chunks_from_last, framed}
use immure.Cipher.Seal.{
  Ends, Ends-map, IsReady, outcome, MakesRoom, make_room_lem, sent, seal_chunk_lem,
}

-- `map_err(unwrap_io)`
abbrev pub unwrapped : Result IoError (List ℕ) → Result Error (List ℕ)
unwrapped (ok bytes) = ok bytes
unwrapped (err e) = err (unwrap_io e)

module _ (a : Aead) where
  -- A call that took the first `n` of `bytes`, at least one.
  abbrev Takes : Sealer → List ℕ → Result IoError ℕ × Sealer → Type 0
  Takes s bytes =
      Ends
        (λ n s'.
          IsReady s'
          × (0 < n)
          × ((rest : List ℕ) → outcome a s' (drop n bytes ++ rest) ≡ outcome a s (bytes ++ rest)))
        (λ e. (rest : List ℕ) → outcome a s (bytes ++ rest) ≡ err e)

  abbrev followed_by : Sealer → List ℕ → Result IoError (List ℕ)
  followed_by s bytes = outcome a (record s { pending = [] }) bytes

  take_in_lem :
      (s : Sealer) (b : ℕ) (bs : List ℕ)
      → IsReady s
      → length s.pending < chunk_size
      → Takes s (b ∷ bs) (take_in a (b ∷ bs) s)
  unfolding take_in
  take_in_lem s b bs w room = (
    record {
      calm = w.calm;
      bounded = omega (arith, length-append s.pending (take n (b ∷ bs)), length-take n (b ∷ bs));
    },
    omega arith,
    same,
  )
    where
      n : ℕ
      n = min (chunk_size - length s.pending) (length (b ∷ bs))

      same :
          (rest : List ℕ)
          → outcome a
              (record s { pending = s.pending ++ take n (b ∷ bs) })
              (drop n (b ∷ bs) ++ rest)
            ≡ outcome a s ((b ∷ bs) ++ rest)
      same rest =
          ap (λ x. followed_by s x)
            (append_assoc s.pending (take n (b ∷ bs)) (drop n (b ∷ bs) ++ rest)
              ∙ ap (λ x. s.pending ++ x)
                  (sym (append_assoc (take n (b ∷ bs)) (drop n (b ∷ bs)) rest)
                    ∙ ap (λ x. x ++ rest) (take-append-drop n (b ∷ bs))))

  after_room :
      (s : Sealer) (b : ℕ) (bs : List ℕ) (r : Result IoError (Unit {0}) × Sealer)
      → MakesRoom a s r
      → Takes s (b ∷ bs) (continue r.0 (λ _. take_in a (b ∷ bs)) r.1)
  after_room s b bs (ok u, s') (ready, room, same) =
      Ends-map (take_in a (b ∷ bs) s')
        (λ n s'' h. (h.0, h.1, λ rest. h.2 rest ∙ same ((b ∷ bs) ++ rest)))
        (λ e h rest. sym (same ((b ∷ bs) ++ rest)) ∙ h rest) (take_in_lem s' b bs ready room)
  after_room s b bs (err e, s') h = λ rest. h ((b ∷ bs) ++ rest)

  write_lem : (s : Sealer) (b : ℕ) (bs : List ℕ) → IsReady s → Takes s (b ∷ bs) (write a (b ∷ bs) s)
  write_lem s b bs w = unfold write in after_room s b bs (make_room a s) (make_room_lem a s w)

  -- All of `bytes` is taken, and what follows changes the outcome as if it had come along.
  abbrev TakesAll : Sealer → List ℕ → Result IoError (Unit {0}) × Sealer → Type 0
  TakesAll s bytes =
      Ends
        (λ u s'. IsReady s' × ((rest : List ℕ) → outcome a s' rest ≡ outcome a s (bytes ++ rest)))
        (λ e. (rest : List ℕ) → outcome a s (bytes ++ rest) ≡ err e)

  after_write :
      (fuel : ℕ) (s : Sealer) (b : ℕ) (bs : List ℕ) (r : Result IoError ℕ × Sealer)
      → Takes s (b ∷ bs) r
      → ((n : ℕ) (k : Sealer)
          → IsReady k
          → 0 < n
          → TakesAll k (drop n (b ∷ bs)) (write_loop a fuel (drop n (b ∷ bs)) k))
      → TakesAll s (b ∷ bs) (
          continue r.0
            (λ n.
              if n == 0 then Exec.raise (os write_zero []) else write_loop a fuel (drop n (b ∷ bs)))
            r.1)
  after_write fuel s b bs (ok zero, s') (ready, pos, same) loop = absurd (omega arith)
  after_write fuel s b bs (ok (suc n), s') (ready, pos, same) loop = rw (not_zero n) (
      Ends-map (write_loop a fuel (drop n bs) s') (λ u k h. (h.0, λ rest. h.1 rest ∙ same rest))
        (λ e h rest. sym (same rest) ∙ h rest) (loop (suc n) s' ready pos))
    where
      not_zero : (n : ℕ) → (suc n == 0) ≡ false
      not_zero n = ground arith
  after_write fuel s b bs (err e, s') h loop = h

  write_loop_lem :
      (fuel : ℕ) (s : Sealer) (bytes : List ℕ)
      → length bytes ≤ fuel
      → IsReady s
      → TakesAll s bytes (write_loop a fuel bytes s)
  unfolding write_loop
  write_loop_lem zero s [] h w = (w, λ rest. refl)
  write_loop_lem zero s (b ∷ bs) h w = absurd (omega arith)
  write_loop_lem (suc fuel) s [] h w = (w, λ rest. refl)
  write_loop_lem (suc fuel) s (b ∷ bs) h w =
      after_write fuel s b bs (write a (b ∷ bs) s) (write_lem s b bs w) (λ n k ready pos.
        write_loop_lem fuel k (drop n (b ∷ bs)) (omega (arith, length-drop n (b ∷ bs))) ready)

  write_whole_lem :
      (s : Sealer) (bytes : List ℕ) → IsReady s → TakesAll s bytes (write_whole a bytes s)
  unfolding write_whole
  write_whole_lem s bytes w = write_loop_lem (length bytes) s bytes (omega arith) w

  -- What the destination of a finished sealer holds.
  abbrev pub delivered : Result IoError (Unit {0}) × Sealer → Result IoError (List ℕ)
  delivered (ok u, s) = ok s.dst.written
  delivered (err e, s) = err e

  last_chunk_lem :
      (s : Sealer)
      → IsReady s
      → length s.pending < chunk_size
      → delivered (last_chunk a s) ≡ outcome a s []
  last_chunk_lem s w room =
      unfold last_chunk in
      sent_delivered (seal_chunk a (length s.pending) true s)
        (seal_chunk_lem a s (length s.pending) true w.calm)
      ∙ ap (λ r. Error.◌>>=◌ r (λ chunks. ok (s.dst.written ++ chunks)))
          (ap (sealed_one a s.key s.nonce s.number true)
              (take_all (length s.pending) s.pending (omega arith) ∙ sym (append-nil s.pending))
            ∙ sym (
                chunks_from_last a s.key s.nonce s.number (s.pending ++ [])
                  (omega (arith, ap length (append-nil s.pending)))))
    where
      sent_delivered :
          (r : Result IoError (Unit {0}) × Sealer)
          → Ends
              (λ u s'.
                (sealed : List ℕ) × (sealed_one a s.key s.nonce s.number true
                    (take (length s.pending) s.pending)
                  ≡ ok sealed)
                × (s' ≡ sent a s (length s.pending) sealed))
              (λ e.
                sealed_one a s.key s.nonce s.number true (take (length s.pending) s.pending)
                ≡ err e)
              r
          → delivered r
            ≡ Error.◌>>=◌
                (sealed_one a s.key s.nonce s.number true (take (length s.pending) s.pending))
                (λ chunks. ok (s.dst.written ++ chunks))
      sent_delivered (ok u, s') (sealed, e, same) = rw (e, same)
      sent_delivered (err x, s') e = rw e

  finish_lem : (s : Sealer) → IsReady s → delivered (finish a s) ≡ outcome a s []
  finish_lem s w = unfold finish in after (make_room a s) (make_room_lem a s w)
    where
      after :
          (r : Result IoError (Unit {0}) × Sealer)
          → MakesRoom a s r
          → delivered (continue r.0 (λ _. last_chunk a) r.1) ≡ outcome a s []
      after (ok u, s') (ready, room, same) = last_chunk_lem s' ready room ∙ same []
      after (err e, s') h = sym (h [])

  after_piece :
      (next : Exec IoError Sealer (Unit {0})) (later : List ℕ) (s : Sealer) (p : List ℕ)
      (r : Result IoError (Unit {0}) × Sealer)
      → ((k : Sealer) → IsReady k → delivered (next k) ≡ outcome a k later)
      → TakesAll s p r
      → delivered (continue r.0 (λ _. next) r.1) ≡ outcome a s (p ++ later)
  after_piece next later s p (ok u, s') loop (ready, same) = loop s' ready ∙ same later
  after_piece next later s p (err e, s') loop h = sym (h later)

  -- `write_all` of each piece in turn, then `finish`.
  abbrev pub write_pieces : List (List ℕ) → Exec IoError Sealer (Unit {0})
  write_pieces [] = finish a
  write_pieces (p ∷ ps) = do write_whole a p; write_pieces ps

  write_pieces_lem :
      (ps : List (List ℕ)) (s : Sealer)
      → IsReady s
      → delivered (write_pieces ps s) ≡ outcome a s (concat ps)
  write_pieces_lem [] s w = finish_lem s w
  write_pieces_lem (p ∷ ps) s w =
      after_piece (write_pieces ps) (concat ps) s p (write_whole a p s)
        (λ k ready. write_pieces_lem ps k ready) (write_whole_lem s p w)

  -- `Sealer::new` over an empty buffer with what `getrandom` answers, the pieces written to the
  -- sealer, and the buffer after `finish`.
  abbrev pub seal_pieces : Key → Option (List ℕ) → List (List ℕ) → Result IoError (List ℕ)
  seal_pieces key drawn ps = elim (sealer key drawn vec) [
    | err e ↦ err e
    | ok s ↦ delivered (write_pieces ps s)
  ]

  -- For any cipher, key, nonce drawn and pieces: starting a `Sealer` over an empty buffer,
  -- writing the pieces one after the other and finishing it leaves in the buffer the frame of
  -- the concatenated pieces, that is magic, version and nonce and then the chunks cut by one
  -- recursion over the content, or gives the error of that recursion.
  pub seal_pieces-framed :
      (key : Key) (nonce : Nonce) (ps : List (List ℕ))
      → seal_pieces key (some nonce.bytes) ps ≡ framed a key nonce (concat ps)
  unfolding framed sealer nonce_random start_sealer write_all
  seal_pieces-framed key nonce ps =
      write_pieces_lem ps _ (record { calm = refl; bounded = omega arith })

  sealed_result_lem :
      (r : Result IoError (Unit {0}) × Sealer) → sealed_result r ≡ unwrapped (delivered r)
  unfolding sealed_result
  sealed_result_lem (ok u, s) = refl
  sealed_result_lem (err e, s) = refl

  -- `seal` of a content under a drawn nonce is that frame too.
  pub seal-framed :
      (key : Key) (nonce : Nonce) (plain : List ℕ)
      → seal a key (some nonce.bytes) plain ≡ unwrapped (framed a key nonce plain)
  unfolding seal sealer nonce_random start_sealer write_all
  seal-framed key nonce plain =
      sealed_result_lem _
      ∙ ap unwrapped
          (seal_pieces-framed key nonce (plain ∷ []) ∙ ap (framed a key nonce) (append-nil plain))
