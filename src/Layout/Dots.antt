-- ===== src/Layout/Dots.antt =====
-- Where the first dot of a name stands: what tells a digest from the tails of src/layout.rs.
use immure.Prelude.{
  ◌≤◌, Text, Lacks, ◌≡◌, refl, ap, sym, ◌∙◌, [], ◌∷◌, ◌++◌, length, length-append, All,
  cons_injective, arith,
}
use immure.Digest.Parse.{IsLowerHex}

-- A tail is empty or begins with a dot.
abbrev pub IsTail : Text → Type 0
IsTail [] = Unit
IsTail (c ∷ t) = c ≡ b'.'

pub Lacks-of_hex : (s : Text) → All IsLowerHex s → Lacks b'.' s
Lacks-of_hex [] h = tt
Lacks-of_hex (c ∷ s) h = (λ e. grind (arith, h.0), Lacks-of_hex s h.1)

-- Two texts that agree, each a dotless front and a tail, have the same front and the same tail.
pub split_at_dot :
    (p t d u : Text)
    → Lacks b'.' p
    → Lacks b'.' d
    → IsTail t
    → IsTail u
    → p ++ t ≡ d ++ u
    → (p ≡ d) × (t ≡ u)
split_at_dot [] t [] u hp hd ht hu e = (refl, e)
split_at_dot [] [] (x ∷ d) u hp hd ht hu e = cc
split_at_dot [] (c ∷ t) (x ∷ d) u hp hd ht hu e =
    absurd (hd.0 (sym (cons_injective c x _ _ e).0 ∙ ht))
split_at_dot (c ∷ p) t [] [] hp hd ht hu e = cc
split_at_dot (c ∷ p) t [] (x ∷ u) hp hd ht hu e = absurd (hp.0 ((cons_injective c x _ _ e).0 ∙ hu))
split_at_dot (c ∷ p) t (x ∷ d) u hp hd ht hu e =
    let (same, rest) = cons_injective c x _ _ e in
    let (fronts, tails) = split_at_dot p t d u hp.1 hd.1 ht hu rest in (cc, tails)

-- A front that is no longer than a dotless one is dotless.
pub Lacks-of_shorter :
    (p t d u : Text) → Lacks b'.' d → length u ≤ length t → p ++ t ≡ d ++ u → Lacks b'.' p
Lacks-of_shorter [] t d u hd h e = tt
Lacks-of_shorter (c ∷ p) t [] u hd h e = absurd (omega (arith, ap length e, length-append p t))
Lacks-of_shorter (c ∷ p) t (x ∷ d) u hd h e =
    let (same, rest) = cons_injective c x _ _ e in
    (λ dot. hd.0 (sym same ∙ dot), Lacks-of_shorter p t d u hd.1 h rest)
