-- ===== src/FilePath.antt =====
-- Paths: what src/src uses of `std::path`. A path is the list of its components from the root of
-- the file system. A component is a name that is Unicode text, or one that is not (`to_str` of an
-- `OsStr` answers `None` for it). The names that the program builds hold no separator.
use immure.Prelude.{
  ℕ, Text, text_eq, text_eq_iff, ◌≡◌, refl, ap, ◌↔◌, Bool, true, false, ◌&&◌, Option, none, some,
  List, [], ◌∷◌, ◌++◌, arith,
}

pub data OsName : Type 0 where
  utf8 : Text → OsName
  raw : List ℕ → OsName

abbrev pub FilePath : Type 0
FilePath = List OsName

abbrev pub to_str : OsName → Option Text
to_str (utf8 t) = some t
to_str (raw b) = none

unfoldable pub name_eq : OsName → OsName → Bool
name_eq (utf8 s) (utf8 t) = text_eq s t
name_eq (raw s) (raw t) = text_eq s t
name_eq _ _ = false

unfoldable pub path_eq : FilePath → FilePath → Bool
unfolding name_eq
path_eq [] [] = true
path_eq [] (d ∷ q) = false
path_eq (c ∷ p) [] = false
path_eq (c ∷ p) (d ∷ q) = name_eq c d && path_eq p q

abbrev pub join : FilePath → Text → FilePath
join p name = p ++ utf8 name ∷ []

-- `Path::file_name`, the last component.
abbrev pub file_name : FilePath → Option OsName
file_name [] = none
file_name (c ∷ []) = some c
file_name (c ∷ d ∷ p) = file_name (d ∷ p)

-- `Path::parent`, all but the last component.
abbrev pub parent : FilePath → FilePath
parent [] = []
parent (c ∷ []) = []
parent (c ∷ d ∷ p) = c ∷ parent (d ∷ p)

abbrev pub with_file_name : FilePath → Text → FilePath
with_file_name p name = join (parent p) name

pub name_eq_iff : (a b : OsName) → (name_eq a b ≡ true) ↔ (a ≡ b)
unfolding name_eq
name_eq_iff (utf8 s) (utf8 t) =
    (λ h. ap utf8 ((text_eq_iff s t).0 h), λ e. (text_eq_iff s t).1 (cc))
name_eq_iff (raw s) (raw t) = (λ h. ap raw ((text_eq_iff s t).0 h), λ e. (text_eq_iff s t).1 (cc))
name_eq_iff (utf8 s) (raw t) = (λ h. cc, λ e. cc)
name_eq_iff (raw s) (utf8 t) = (λ h. cc, λ e. cc)

pub path_eq_iff : (p q : FilePath) → (path_eq p q ≡ true) ↔ (p ≡ q)
unfolding path_eq
path_eq_iff [] [] = (λ h. refl, λ e. refl)
path_eq_iff [] (d ∷ q) = (λ h. cc, λ e. cc)
path_eq_iff (c ∷ p) [] = (λ h. cc, λ e. cc)
path_eq_iff (c ∷ p) (d ∷ q) = (
  λ h. ground (arith, name_eq_iff c d, path_eq_iff p q),
  λ e. ground (arith, name_eq_iff c d, path_eq_iff p q),
)

-- The last component of a joined path, and the rest of it.
pub file_name-join : (p : FilePath) (n : Text) → file_name (join p n) ≡ some (utf8 n)
file_name-join [] n = refl
file_name-join (c ∷ []) n = refl
file_name-join (c ∷ d ∷ p) n = file_name-join (d ∷ p) n

pub parent-join : (p : FilePath) (n : Text) → parent (join p n) ≡ p
parent-join [] n = refl
parent-join (c ∷ []) n = refl
parent-join (c ∷ d ∷ p) n = ap (λ r. c ∷ r) (parent-join (d ∷ p) n)
