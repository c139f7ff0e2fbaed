-- ===== src/Paths/Prefixes.antt =====
-- When one path begins with another.
use scriptmetakit.Paths.{
  FilePath, Component, root_dir, component_eq, component_eq_sound, component_eq_refl, path_eq,
  starts_with, split_last, parent, parent_of,
}
use scriptmetakit.Prelude.{
  suc, ◌≤◌, ◌≡◌, refl, sym, ap, ◌∙◌, true, [], ◌∷◌, ◌++◌, Option, none, some, arith, length,
  Option-cases, inl, inr, some_inj, and_true, length-append,
}

pub starts_with_refl : (p : FilePath) → starts_with p p ≡ true
unfolding starts_with
starts_with_refl [] = refl
starts_with_refl (x ∷ p) = ground (arith, component_eq_refl x, starts_with_refl p)

pub path_eq-starts_with : (p q : FilePath) → path_eq p q ≡ true → starts_with p q ≡ true
unfolding path_eq starts_with
path_eq-starts_with [] [] h = refl
path_eq-starts_with [] (y ∷ q) h = cc
path_eq-starts_with (x ∷ p) [] h = refl
path_eq-starts_with (x ∷ p) (y ∷ q) h = ground (arith, path_eq-starts_with p q)

pub starts_with-length : (p q : FilePath) → starts_with p q ≡ true → length q ≤ length p
unfolding starts_with
starts_with-length p [] h = omega arith
starts_with-length [] (y ∷ q) h = cc
starts_with-length (x ∷ p) (y ∷ q) h = ground (arith, starts_with-length p q)

-- A path that begins with one no shorter than itself is that path.
pub starts_with_antisymm :
    (p q : FilePath) → starts_with q p ≡ true → length q ≤ length p → starts_with p q ≡ true
unfolding starts_with
starts_with_antisymm p [] h k = refl
starts_with_antisymm [] (y ∷ q) h k = absurd (omega arith)
starts_with_antisymm (x ∷ p) (y ∷ q) h k = ground (
  arith,
  component_eq_sound y x,
  component_eq_refl x,
  starts_with_antisymm p q (and_true (component_eq y x) (starts_with q p) h).1 (omega arith),
)

pub starts_with_trans :
    (p q r : FilePath) → starts_with p q ≡ true → starts_with q r ≡ true → starts_with p r ≡ true
unfolding starts_with
starts_with_trans p q [] h k = refl
starts_with_trans p [] (z ∷ r) h k = cc
starts_with_trans [] (y ∷ q) (z ∷ r) h k = cc
starts_with_trans (x ∷ p) (y ∷ q) (z ∷ r) h k =
    ground (arith, component_eq_sound x y, starts_with_trans p q r)

pub starts_with-append : (p q : FilePath) → starts_with (p ++ q) p ≡ true
unfolding starts_with
starts_with-append [] q = refl
starts_with-append (x ∷ p) q = ground (arith, component_eq_refl x, starts_with-append p q)

split_last-none : (p : FilePath) → split_last p ≡ none → p ≡ []
unfolding split_last
split_last-none [] h = refl
split_last-none (x ∷ p) h = ground arith

split_last-append :
    (p : FilePath) {r : FilePath × Component} → split_last p ≡ some r → p ≡ r.0 ++ r.1 ∷ []
unfolding split_last
split_last-append [] h = cc
split_last-append (x ∷ p) {r} h = elim (Option-cases (split_last p)) [
  | inl e ↦ rw (split_last-none p e, ← some_inj (rw e at h)) refl
  | inr (s, e) ↦ rw (split_last-append p e, ← some_inj (rw e at h)) refl
]

parent_of-some : (p : FilePath) (c : Component) {q : FilePath} → parent_of p c ≡ some q → q ≡ p
unfolding parent_of
parent_of-some p root_dir h = cc
parent_of-some p _ h = cc

none-some : {q : FilePath} → ◌≡◌ {A = Option FilePath} none (some q) → ⊥
none-some h = cc

-- The parent is the path without its last component.
pub parent-append :
    (p : FilePath) {q : FilePath} → parent p ≡ some q → (c : Component) × (p ≡ q ++ c ∷ [])
unfolding parent
parent-append p {q} h = elim (Option-cases (split_last p)) [
  | inl e ↦ absurd (none-some (rw (e, parent) at h))
  | inr (r, e) ↦ (
    r.1,
    split_last-append p e
        ∙ ap (λ l. l ++ r.1 ∷ []) (sym (parent_of-some r.0 r.1 (rw (e, parent) at h))),
  )
]

pub starts_with-parent : (p : FilePath) {q : FilePath} → parent p ≡ some q → starts_with p q ≡ true
starts_with-parent p {q} h = let r = parent-append p h in rw r.1 (starts_with-append q (r.0 ∷ []))

pub length-parent : (p : FilePath) {q : FilePath} → parent p ≡ some q → length p ≡ suc (length q)
length-parent p {q} h =
    let r = parent-append p h in omega (arith, ap length r.1, length-append q (r.0 ∷ []))
