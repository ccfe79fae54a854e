-- ===== src/Cipher/Nonces.antt =====
-- The nonces of the chunks of one blob, `Nonce::chunk` of src/crypt/cipher.rs.
use immure.Prelude.{
  ℕ, ◌<◌, ◌≡◌, refl, Bool, true, false, List, [], ◌∷◌, ◌++◌, append_injective, arith,
}
use immure.Cipher.{Nonce, chunk_nonce, be_bytes, bit, u32_mod}

bit_injective : (a b : Bool) → bit a ≡ bit b → a ≡ b
bit_injective true true e = refl
bit_injective false false e = refl
bit_injective true false e = absurd (omega arith)
bit_injective false true e = absurd (omega arith)

five_injective :
    (a b c d e a' b' c' d' e' : ℕ)
    → ◌≡◌ {A = List ℕ} (a ∷ b ∷ c ∷ d ∷ e ∷ []) (a' ∷ b' ∷ c' ∷ d' ∷ e' ∷ [])
    → (a ≡ a') × (b ≡ b') × (c ≡ c') × (d ≡ d') × (e ≡ e')
five_injective a b c d e a' b' c' d' e' h = ground arith

-- Two chunks of one blob, numbered below 2^32, whose nonces are equal have the same number and
-- are both the last one or both not.
pub chunk_nonce_injective :
    (nonce : Nonce) (i j : ℕ) (a b : Bool)
    → i < u32_mod
    → j < u32_mod
    → chunk_nonce nonce i a ≡ chunk_nonce nonce j b
    → (i ≡ j) × (a ≡ b)
unfolding chunk_nonce
chunk_nonce_injective nonce i j a b hi hj e =
    let (same, tails) =
      append_injective nonce.bytes (be_bytes i ++ (bit a ∷ [])) nonce.bytes
        (be_bytes j ++ (bit b ∷ [])) refl e in
    let (w, x, y, z, l) = five_injective _ _ _ _ (bit a) _ _ _ _ (bit b) tails in
    (omega arith, bit_injective a b l)
