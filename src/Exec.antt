-- ===== src/Exec.antt =====
-- Methods that change an object and may fail: the new state comes back beside the result, also
-- beside an error, since what was changed before the error stays changed.
use mathlib.Core.Path.{◌≡◌, ap}
use immure.Error.{Result, ok, err}

abbrev pub Exec : Type 0 → Type 0 → Type 0 → Type 0
Exec E S A = S → Result E A × S

abbrev pub continue : {E S A B : Type 0} → Result E A → (A → Exec E S B) → Exec E S B
continue (ok a) f s = f a s
continue (err e) f s = (err e, s)

infixl 5 ◌>>=◌ ◌>>◌
abbrev pub ◌>>=◌ : {E S A B : Type 0} → Exec E S A → (A → Exec E S B) → Exec E S B
◌>>=◌ m f s = let r = m s in continue r.0 f r.1

abbrev pub ◌>>◌ : {E S B : Type 0} → Exec E S (Unit {0}) → Exec E S B → Exec E S B
m >> k = m >>= λ _. k

abbrev pub pure : {E S A : Type 0} → A → Exec E S A
pure a s = (ok a, s)

abbrev pub raise : {E S A : Type 0} → E → Exec E S A
raise e s = (err e, s)

abbrev pub lift : {E S A : Type 0} → Result E A → Exec E S A
lift r s = (r, s)

abbrev pub gets : {E S A : Type 0} → (S → A) → Exec E S A
gets f s = (ok (f s), s)

abbrev pub modify : {E S : Type 0} → (S → S) → Exec E S (Unit {0})
modify f s = (ok tt, f s)

-- A chain goes on with what its first part answered.
pub bind_ok :
    {E S A B : Type 0} (m : Exec E S A) (f : A → Exec E S B) (s s' : S) (a : A)
    → m s ≡ (ok a, s')
    → (m >>= f) s ≡ f a s'
bind_ok m f s s' a run = ap (λ r. continue r.0 f r.1) run
