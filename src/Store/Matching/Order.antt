-- ===== src/Store/Matching/Order.antt =====
-- The order of `String` in src/store.rs, on digests, is strict and total.
use immure.Prelude.{◌≡◌, refl, ap, Text, text_eq_iff, true, false, [], ◌∷◌, ==_iff, IsOrder, arith}
use immure.Digest.Types.{Digest}
use immure.Store.Check.{same_digest}
use immure.Store.Matching.{text_ltb, digest_ltb}

text_asym : (s t : Text) → text_ltb s t ≡ true → text_ltb t s ≡ false
unfolding text_ltb
text_asym [] [] e = cc
text_asym [] (d ∷ t) e = refl
text_asym (c ∷ s) [] e = cc
text_asym (c ∷ s) (d ∷ t) e = ground (arith, ==_iff c d, ==_iff d c, text_asym s t)

text_weak : (x y z : Text) → text_ltb z y ≡ false → text_ltb y x ≡ false → text_ltb z x ≡ false
unfolding text_ltb
text_weak x [] [] zy yx = yx
text_weak [] y (c ∷ z) zy yx = refl
text_weak (a ∷ x) [] (c ∷ z) zy yx = cc
text_weak x (b ∷ y) [] zy yx = cc
text_weak (a ∷ x) (b ∷ y) (c ∷ z) zy yx =
    ground (arith, ==_iff c b, ==_iff b a, ==_iff c a, text_weak x y z)

text_total : (s t : Text) → text_ltb s t ≡ false → text_ltb t s ≡ false → s ≡ t
unfolding text_ltb
text_total [] [] st ts = refl
text_total [] (d ∷ t) st ts = cc
text_total (c ∷ s) [] st ts = cc
text_total (c ∷ s) (d ∷ t) st ts = ground (arith, ==_iff c d, ==_iff d c, text_total s t)

abbrev digest_of_text : Text → Digest
digest_of_text t = record { text = t }

abbrev text_of : Digest → Text
text_of d = d.text

pub digest_ltb-IsOrder : IsOrder digest_ltb same_digest
digest_ltb-IsOrder = record {
  asym = λ d e. text_asym d.text e.text;
  weak = λ d e f. text_weak d.text e.text f.text;
  total = λ d e de ed. ap digest_of_text (text_total d.text e.text de ed);
  same_iff = λ d e. (
    λ h. ap digest_of_text ((text_eq_iff d.text e.text).0 h),
    λ h. (text_eq_iff d.text e.text).1 (ap text_of h),
  );
}
