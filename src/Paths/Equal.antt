-- ===== src/Paths/Equal.antt =====
-- Texts and paths that the order calls equal are equal.
use scriptmetakit.Chars.{Text}
use scriptmetakit.Paths.{
  Component, FilePath, root_dir, cur_dir, parent_dir, normal, then_with, compare_text,
  compare_component, compare_path, rank, name_of,
}
use scriptmetakit.Prelude.{ℕ, List, [], ◌∷◌, compare, Ordering, ◌≡◌, refl, ap, arith}

then_with-eq :
    (a b : Ordering) → then_with a b ≡ Ordering.eq → (a ≡ Ordering.eq) × (b ≡ Ordering.eq)
then_with-eq Ordering.eq b h = (refl, h)
then_with-eq Ordering.lt b h = cc
then_with-eq Ordering.gt b h = cc

compare-eq : (x y : ℕ) → compare x y ≡ Ordering.eq → x ≡ y
compare-eq x y h = ground arith

cons_eq {ℓ} : {A : Type ℓ} {x y : A} {xs ys : List A} → x ≡ y → xs ≡ ys → x ∷ xs ≡ y ∷ ys
cons_eq h k = cc

pub compare_text-eq : (s t : Text) → compare_text s t ≡ Ordering.eq → s ≡ t
unfolding compare_text
compare_text-eq [] [] h = refl
compare_text-eq [] (y ∷ t) h = cc
compare_text-eq (x ∷ s) [] h = cc
compare_text-eq (x ∷ s) (y ∷ t) h =
    let (a, b) = then_with-eq (compare x y) (compare_text s t) h in
    cons_eq (compare-eq x y a) (compare_text-eq s t b)

compare_component-eq : (a b : Component) → compare_component a b ≡ Ordering.eq → a ≡ b
unfolding compare_component rank name_of
compare_component-eq root_dir root_dir h = refl
compare_component-eq cur_dir cur_dir h = refl
compare_component-eq parent_dir parent_dir h = refl
compare_component-eq (normal a) (normal b) h = ap normal (compare_text-eq a b h)
compare_component-eq _ _ h = cc

pub compare_path-eq : (p q : FilePath) → compare_path p q ≡ Ordering.eq → p ≡ q
unfolding compare_path
compare_path-eq [] [] h = refl
compare_path-eq [] (y ∷ q) h = cc
compare_path-eq (x ∷ p) [] h = cc
compare_path-eq (x ∷ p) (y ∷ q) h =
    let (a, b) = then_with-eq (compare_component x y) (compare_path p q) h in
    cons_eq (compare_component-eq x y a) (compare_path-eq p q b)
