-- ===== src/Store/Built.antt =====
-- What a store that `Builder::build` of src/store.rs made can do.
use immure.Prelude.{
  ℕ, ◌*◌, ◌≤◌, ◌<◌, ◌≡◌, refl, ap, sym, Bool, true, false, Option, none, some, arith,
}
use mathlib.Core.Path.{subst}
use immure.Error.{ok}
use immure.Digest.Types.{Algorithm, Digest, hex_len, len, sha256, sha384, sha512, blake3}
use immure.Layout.{form_of, is_compressed, is_encrypted}
use immure.Layout.Names.{IsLayout, layout-IsLayout}
use immure.Cipher.{Key}
use immure.Store.{Features, Builder, Store, is_some, build, made, form}
use immure.Store.Codec.{Build}
use immure.Store.Content.{CanWrite}
use immure.Store.Laws.{built, build-form, max_depth_lem}

pub long_hex : (a : Algorithm) → 3 < hex_len a
unfolding hex_len
long_hex sha256 = omega arith
long_hex sha384 = omega arith
long_hex sha512 = omega arith
long_hex blake3 = omega arith

allowed :
    (f : Features) (b : Builder) (r : Store × ℕ)
    → build f b ≡ ok r
    → (is_compressed (form_of b.compress (is_some b.key)) ≡ true → f.zstd ≡ true)
      × (is_encrypted (form_of b.compress (is_some b.key)) ≡ true → f.crypt ≡ true)
unfolding build
allowed f b r e = (λ c. ground arith, λ c. ground arith)

keyed :
    (compress : Bool) (k : Option Key)
    → is_encrypted (form_of compress (is_some k)) ≡ true
    → (key : Key) × (k ≡ some key)
unfolding form_of
keyed true (some key) e = (key, refl)
keyed false (some key) e = (key, refl)
keyed true none e = cc
keyed false none e = cc

module _ (b : Build) (bld : Builder) (s : Store) (first : ℕ)
    (run : build b.features bld ≡ ok (s, first)) where
  pub store_is : s ≡ made bld
  store_is = ap (λ r. r.0) (built b.features bld (s, first) run).1

  pub names_of : IsLayout s.layout
  names_of =
      subst (λ s. IsLayout s.layout) (sym store_is) (layout-IsLayout bld.root bld.suffix bld.depth)

  pub can_write : CanWrite b s (form s)
  unfolding form
  can_write =
      subst (λ s. CanWrite b s (form s)) (sym store_is)
        (record {
          zstd_there = (allowed b.features bld (s, first) run).0;
          crypt_there = (allowed b.features bld (s, first) run).1;
          key_there = keyed bld.compress bld.key;
        })

  pub deep_enough : (d : Digest) → len d ≡ hex_len s.algorithm → s.layout.depth * 2 ≤ len d
  deep_enough d own =
      omega (arith, (build-form b.features bld s first run).0, max_depth_lem s.algorithm, own)
