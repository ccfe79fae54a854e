-- ===== src/Store/Paths.antt =====
-- The paths that src/store.rs writes under: an entry's, the temporary directory's and the shard's
-- are not in one another's way.
use immure.Prelude.{
  ℕ, zero, suc, ◌*◌, ◌≤◌, ◌<◌, ◌≡◌, refl, ap, sym, ◌∙◌, Text, [], ◌∷◌, ◌++◌, append_assoc,
  append-nil, length, length-append, length-take, length-drop, take, drop, map, arith,
}
use immure.FilePath.{OsName, utf8, FilePath, join}
use immure.Digest.Types.{Digest, len}
use immure.Digest.{pieces}
use immure.Digest.Parse.{IsDigest}
use immure.Layout.{Form, raw, zstd, enc, Layout, entry_name, zst_suffix, enc_suffix}
use immure.Layout.Names.{IsLayout, entry_name_injective}
use immure.World.Dirs.{IsOff}
use immure.Temp.{temp_dir_name}

-- The directories of the digest below the root, and the entry's path.
abbrev pub shard_names : Layout → Digest → FilePath
shard_names l d = map utf8 (pieces d.text 0 l.depth)

abbrev pub folder_of : Layout → Digest → FilePath
folder_of l d = l.root ++ shard_names l d

abbrev pub path_of_form : Layout → Digest → Form → FilePath
path_of_form l d f = join (folder_of l d) (entry_name l d f)

-- What is longer than a path is not on the way to it.
pub longer-IsOff : (q p : FilePath) → length p < length q → IsOff q p
longer-IsOff q p longer r e = absurd (omega (arith, ap length e, length-append q r))

pub step-IsOff : (p : FilePath) (c : OsName) → IsOff (p ++ c ∷ []) p
step-IsOff p c = longer-IsOff (p ++ c ∷ []) p (omega (arith, length-append p (c ∷ [])))

length-pieces : (t : Text) (i k : ℕ) → length (map utf8 (pieces t i k)) ≡ k
unfolding pieces
length-pieces t i zero = refl
length-pieces t i (suc k) = ap suc (length-pieces t (suc i) k)

-- An entry's path is longer than the directory of any digest.
pub longer_entry :
    (l : Layout) (d e : Digest) (f : Form) → length (folder_of l d) < length (path_of_form l e f)
longer_entry l d e f = omega (
  arith,
  length-append l.root (shard_names l d),
  length-append (folder_of l e) (utf8 (entry_name l e f) ∷ []),
  length-append l.root (shard_names l e),
  length-pieces d.text 0 l.depth,
  length-pieces e.text 0 l.depth,
)

tail_of : {a b : OsName} {u v : FilePath} → a ∷ u ≡ b ∷ v → u ≡ v
tail_of e = cc

pub cancel : (p x y : FilePath) → p ++ x ≡ p ++ y → x ≡ y
cancel [] x y e = e
cancel (c ∷ p) x y e = cancel p x y (tail_of e)

head_text : (a b : Text) (x y : FilePath) → utf8 a ∷ x ≡ utf8 b ∷ y → a ≡ b
head_text a b x y e = cc

length-text : (t u : Text) → t ≡ u → length t ≡ length u
length-text t u e = ap length e

name_long : (l : Layout) (d : Digest) (f : Form) → len d ≤ length (entry_name l d f)
unfolding entry_name
name_long l d raw = omega (arith, length-append d.text l.suffix)
name_long l d zstd =
    omega (arith, length-append d.text l.suffix, length-append (d.text ++ l.suffix) zst_suffix)
name_long l d enc = omega (
  arith,
  length-append d.text l.suffix,
  length-append (d.text ++ l.suffix) zst_suffix,
  length-append ((d.text ++ l.suffix) ++ zst_suffix) enc_suffix,
)

length-first_piece : (t : Text) → 3 < length t → length (take 2 (drop (0 * 2) t)) ≡ 2
length-first_piece t long = omega (arith, length-take 2 (drop (0 * 2) t), length-drop (0 * 2) t)

first_from :
    (l : Layout) (d : Digest) (f : Form) (k : ℕ)
    → 3 < len d
    → (a : Text) × (x : FilePath) × ((l.root ++ map utf8 (pieces d.text 0 k))
          ++ utf8 (entry_name l d f) ∷ []
        ≡ l.root ++ utf8 a ∷ x)
      × (length a ≡ 3 → ⊥)
unfolding pieces
first_from l d f zero long = (
  entry_name l d f,
  [],
  ap (λ p. p ++ utf8 (entry_name l d f) ∷ []) (append-nil l.root),
  λ e. absurd (omega (arith, e, name_long l d f)),
)
first_from l d f (suc k) long = (
  take 2 (drop (0 * 2) d.text),
  map utf8 (pieces d.text 1 k) ++ utf8 (entry_name l d f) ∷ [],
  append_assoc l.root (utf8 (take 2 (drop (0 * 2) d.text)) ∷ map utf8 (pieces d.text 1 k))
      (utf8 (entry_name l d f) ∷ []),
  λ e. absurd (omega (arith, e, length-first_piece d.text long)),
)

-- The first name below the root on the way to an entry is not three characters long, as `tmp` is.
pub temp-apart :
    (l : Layout) (d : Digest) (f : Form) (y : FilePath)
    → 3 < len d
    → path_of_form l d f ≡ l.root ++ utf8 temp_dir_name ∷ y
    → ⊥
temp-apart l d f y long e =
    let (a, x, shape, short) = first_from l d f l.depth long in
    short (
      ap length (
        head_text a temp_dir_name x y
          (cancel l.root (utf8 a ∷ x) (utf8 temp_dir_name ∷ y) (sym shape ∙ e))))

abbrev pub temp_folder : Layout → FilePath
temp_folder l = join l.root temp_dir_name

-- An entry's path is not on the way to the temporary directory.
pub entry-IsOff_temp :
    (l : Layout) (d : Digest) (f : Form) → 3 < len d → IsOff (path_of_form l d f) (temp_folder l)
entry-IsOff_temp l d f long r e =
    let (a, x, shape, short) = first_from l d f l.depth long in
    let whole = e ∙ (ap (λ p. p ++ r) shape ∙ append_assoc l.root (utf8 a ∷ x) r) in
    short (
      ap length (
        sym (
          head_text temp_dir_name a [] (x ++ r)
            (cancel l.root (utf8 temp_dir_name ∷ []) (utf8 a ∷ (x ++ r)) whole))))

pub forms-apart :
    (l : Layout) (d : Digest) (f g : Form)
    → IsLayout l
    → IsDigest d
    → path_of_form l d f ≡ path_of_form l d g
    → f ≡ g
forms-apart l d f g w v e =
    (entry_name_injective l d d f g w v v (
      head_text (entry_name l d f) (entry_name l d g) [] []
        (cancel (folder_of l d) (utf8 (entry_name l d f) ∷ []) (utf8 (entry_name l d g) ∷ []) e))).1
