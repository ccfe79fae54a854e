-- ===== src/Store/Laws.antt =====
-- The laws of `Builder::build` and `Store::candidates` of src/store.rs.
use immure.Prelude.{
  ℕ, ◌*◌, ◌≤◌, ◌≡◌, refl, ◌⊎◌, ==_iff, sym, List, [], ◌∷◌, ◌++◌, map, inl, inr, arith,
}
use mathlib.Core.Path.{subst}
use immure.Error.{ok}
use immure.Digest.Types.{Algorithm, sha256, sha384, sha512, blake3, hex_len, max_depth, Digest, len}
use immure.Digest.{shards, pieces}
use immure.Layout.{
  entry_name, entry_path, Form, raw, zstd, enc, Layout, layout, shard, with_others_after, as_u8,
  from_u8, form_of,
}
use immure.FilePath.{FilePath, utf8, join}
use immure.Store.{
  named, made, Store, Builder, Features, build, is_some, own_digest, candidates, form,
}

pub max_depth_lem : (a : Algorithm) → max_depth a * 2 ≡ hex_len a
unfolding hex_len max_depth
max_depth_lem sha256 = refl
max_depth_lem sha384 = refl
max_depth_lem sha512 = refl
max_depth_lem blake3 = refl

pub form_round : (f : Form) → from_u8 (as_u8 f) ≡ f
unfolding from_u8 as_u8
form_round raw = refl
form_round zstd = refl
form_round enc = refl

pub built :
    (f : Features) (b : Builder) (r : Store × ℕ)
    → build f b ≡ ok r
    → (b.depth ≤ max_depth b.algorithm) × (r ≡ (made b, as_u8 (form_of b.compress (is_some b.key))))
unfolding build
built f b r e = ground arith

-- A store that `build` made is no deeper than its algorithm allows, and the byte it remembers
-- first stands for the form it writes.
pub build-form :
    (f : Features) (b : Builder) (s : Store) (first : ℕ)
    → build f b ≡ ok (s, first)
    → (s.layout.depth ≤ max_depth s.algorithm) × (from_u8 first ≡ form s)
unfolding layout form
build-form f b s first e =
    let made_b = (built f b (s, first) e).1 in
    subst (λ r. (r.0.layout.depth ≤ max_depth r.0.algorithm) × (from_u8 r.1 ≡ form r.0))
      (sym made_b) ((built f b (s, first) e).0, form_round (form_of b.compress (is_some b.key)))

abbrev pub Among : FilePath × Form → List (FilePath × Form) → Type 0
Among x [] = ⊥
Among x (y ∷ ys) = (x ≡ y) ⊎ Among x ys

every_form :
    (s : Store) (d : Digest) (folder : FilePath) (first f : Form)
    → Among (join folder (entry_name s.layout d f), f) (named s d folder (with_others_after first))
unfolding with_others_after
every_form s d folder raw raw = inl refl
every_form s d folder raw zstd = inr (inl refl)
every_form s d folder raw enc = inr (inr (inl refl))
every_form s d folder zstd zstd = inl refl
every_form s d folder zstd enc = inr (inl refl)
every_form s d folder zstd raw = inr (inr (inl refl))
every_form s d folder enc enc = inl refl
every_form s d folder enc zstd = inr (inl refl)
every_form s d folder enc raw = inr (inr (inl refl))

shard_made :
    (l : Layout) (d : Digest) → l.depth * 2 ≤ len d → (folder : FilePath) × (shard l d ≡ ok folder)
unfolding shard shards
shard_made l d enough = (l.root ++ map utf8 (pieces d.text 0 l.depth), ground arith)

pub candidates_shape :
    (s : Store) (byte : ℕ) (d : Digest) (folder : FilePath)
    → own_digest s d ≡ ok tt
    → shard s.layout d ≡ ok folder
    → candidates s byte d ≡ ok (named s d folder (with_others_after (from_u8 byte)))
unfolding candidates
candidates_shape s byte d folder own there = rw (own, there) refl

path_shape :
    (l : Layout) (d : Digest) (f : Form) (folder : FilePath)
    → shard l d ≡ ok folder
    → entry_path l d f ≡ ok (join folder (entry_name l d f))
unfolding entry_path
path_shape l d f folder there = rw there refl

pub own_length : (s : Store) (d : Digest) → len d ≡ hex_len s.algorithm → own_digest s d ≡ ok tt
unfolding own_digest
own_length s d own = ground (arith, ==_iff (len d) (hex_len s.algorithm))

-- For a store that `Builder::build` made and a digest of its algorithm's length, the
-- candidates can always be made, whatever byte is remembered as the first form, and the path
-- that the layout gives the digest in each of the three forms is among them.
pub candidates-build :
    (f : Features) (b : Builder) (s : Store) (first byte : ℕ) (d : Digest)
    → build f b ≡ ok (s, first)
    → len d ≡ hex_len s.algorithm
    → (names : List (FilePath × Form)) × (candidates s byte d ≡ ok names)
      × ((f : Form) → (p : FilePath) × (entry_path s.layout d f ≡ ok p) × Among (p, f) names)
candidates-build f b s first byte d e own =
    let deep = (build-form f b s first e).0 in
    let (folder, there) =
      shard_made s.layout d (omega (arith, max_depth_lem s.algorithm, deep, own)) in
    (
      named s d folder (with_others_after (from_u8 byte)),
      candidates_shape s byte d folder (own_length s d own) there,
      λ g. (
        join folder (entry_name s.layout d g),
        path_shape s.layout d g folder there,
        every_form s d folder (from_u8 byte) g,
      ),
    )
