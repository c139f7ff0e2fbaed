-- ===== src/Paths.antt =====
-- Rust's standard library on paths, as the source uses it. A path is the list of its components,
-- the root directory included; path prefixes, which only Windows has, are left out.
pub mod Prefixes
pub mod Equal
use scriptmetakit.Chars.{Text, text_eq, text_eq_iff}
use scriptmetakit.Prelude.{
  ℕ, ◌≡◌, refl, ap, Bool, true, false, ◌&&◌, List, [], ◌∷◌, ◌++◌, Option, none, some, arith,
  if◌then◌else◌, compare, Ordering, ◌↔◌,
}

pub data Component : Type 0 where
  root_dir cur_dir parent_dir : Component
  normal : Text → Component

abbrev pub FilePath : Type 0
FilePath = List Component

-- `Ord::then_with`.
abbrev pub then_with : Ordering → Ordering → Ordering
then_with Ordering.eq later = later
then_with Ordering.lt later = Ordering.lt
then_with Ordering.gt later = Ordering.gt

-- The order of texts, by scalar values.
unfoldable pub compare_text : Text → Text → Ordering
compare_text [] [] = Ordering.eq
compare_text [] (_ ∷ _) = Ordering.lt
compare_text (_ ∷ _) [] = Ordering.gt
compare_text (x ∷ xs) (y ∷ ys) = then_with (compare x y) (compare_text xs ys)

rank : Component → ℕ
rank root_dir = 0
rank cur_dir = 1
rank parent_dir = 2
rank (normal _) = 3

name_of : Component → Text
name_of (normal name) = name
name_of root_dir = []
name_of cur_dir = []
name_of parent_dir = []

unfoldable pub compare_component : Component → Component → Ordering
unfolding rank name_of
compare_component a b = then_with (compare (rank a) (rank b)) (compare_text (name_of a) (name_of b))

unfoldable pub compare_path : FilePath → FilePath → Ordering
compare_path [] [] = Ordering.eq
compare_path [] (_ ∷ _) = Ordering.lt
compare_path (_ ∷ _) [] = Ordering.gt
compare_path (x ∷ xs) (y ∷ ys) = then_with (compare_component x y) (compare_path xs ys)

unfoldable pub component_eq : Component → Component → Bool
component_eq root_dir root_dir = true
component_eq cur_dir cur_dir = true
component_eq parent_dir parent_dir = true
component_eq (normal a) (normal b) = text_eq a b
component_eq _ _ = false

pub component_eq_sound : (a b : Component) → component_eq a b ≡ true → a ≡ b
unfolding component_eq
component_eq_sound root_dir root_dir h = refl
component_eq_sound cur_dir cur_dir h = refl
component_eq_sound parent_dir parent_dir h = refl
component_eq_sound (normal a) (normal b) h = ap normal ((text_eq_iff a b).0 h)
component_eq_sound _ _ h = cc

pub component_eq_refl : (a : Component) → component_eq a a ≡ true
unfolding component_eq
component_eq_refl root_dir = refl
component_eq_refl cur_dir = refl
component_eq_refl parent_dir = refl
component_eq_refl (normal a) = (text_eq_iff a a).1 refl

unfoldable pub path_eq : FilePath → FilePath → Bool
path_eq [] [] = true
path_eq (x ∷ xs) (y ∷ ys) = component_eq x y && path_eq xs ys
path_eq [] (_ ∷ _) = false
path_eq (_ ∷ _) [] = false

pub path_eq_sound : (p q : FilePath) → path_eq p q ≡ true → p ≡ q
unfolding path_eq
path_eq_sound [] [] h = refl
path_eq_sound [] (y ∷ q) h = cc
path_eq_sound (x ∷ p) [] h = cc
path_eq_sound (x ∷ p) (y ∷ q) h = ground (arith, component_eq_sound x y, path_eq_sound p q)

pub path_eq_refl : (p : FilePath) → path_eq p p ≡ true
unfolding path_eq
path_eq_refl [] = refl
path_eq_refl (x ∷ p) = ground (arith, component_eq_refl x, path_eq_refl p)

-- `Path::strip_prefix` and `Path::starts_with`.
unfoldable pub strip_path_prefix : FilePath → FilePath → Option FilePath
strip_path_prefix p [] = some p
strip_path_prefix [] (_ ∷ _) = none
strip_path_prefix (x ∷ p) (y ∷ q) =
    let rest = strip_path_prefix p q in if component_eq x y then rest else none

unfoldable pub starts_with : FilePath → FilePath → Bool
starts_with p [] = true
starts_with [] (_ ∷ _) = false
starts_with (x ∷ p) (y ∷ q) = component_eq x y && starts_with p q

-- All components but the last, and the last.
unfoldable pub split_last : FilePath → Option (FilePath × Component)
split_last [] = none
split_last (x ∷ p) = elim (split_last p) [ none ↦ some ([], x) | some r ↦ some (x ∷ r.0, r.1) ]

parent_of : FilePath → Component → Option FilePath
parent_of p root_dir = none
parent_of p cur_dir = some p
parent_of p parent_dir = some p
parent_of p (normal _) = some p

-- `Path::parent`.
unfoldable pub parent : FilePath → Option FilePath
unfolding parent_of
parent p = elim (split_last p) [ none ↦ none | some r ↦ parent_of r.0 r.1 ]

file_name_of : Component → Option Text
file_name_of (normal name) = some name
file_name_of root_dir = none
file_name_of cur_dir = none
file_name_of parent_dir = none

-- `Path::file_name`.
unfoldable pub file_name : FilePath → Option Text
unfolding file_name_of
file_name p = elim (split_last p) [ none ↦ none | some r ↦ file_name_of r.1 ]

-- `Path::join` with a file name.
abbrev pub join : FilePath → Text → FilePath
join p name = p ++ normal name ∷ []

-- `PathBuf::pop`, and `PathBuf::push` of one component: the root directory replaces the path.
unfoldable pub pop : FilePath → FilePath
pop p = elim (parent p) [ none ↦ p | some q ↦ q ]

unfoldable pub push : FilePath → Component → FilePath
push p root_dir = root_dir ∷ []
push p cur_dir = p ++ cur_dir ∷ []
push p parent_dir = p ++ parent_dir ∷ []
push p (normal name) = p ++ normal name ∷ []
