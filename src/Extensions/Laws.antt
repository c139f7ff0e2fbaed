-- ===== src/Extensions/Laws.antt =====
-- Membership in an `ExtensionPolicy` that was made of a list of extensions.
use scriptmetakit.Chars.Distinct.{contains}
use scriptmetakit.Chars.{Text, ascii_lower, to_ascii_lowercase, text_eq, is_empty}
use scriptmetakit.Extensions.{
  bare, normalize_extension, new, is_ascii_uppercase, lookup, contains_extension,
}
use scriptmetakit.Prelude.{
  true, false, not, ◌&&◌, ◌||◌, List, [], ◌∷◌, if◌then◌else◌, any, ◌≡◌, refl, ap, ◌∙◌, arith,
  Bool-cases, inl, inr,
}

lower_of_lower : (s : Text) → any is_ascii_uppercase s ≡ false → to_ascii_lowercase s ≡ s
unfolding to_ascii_lowercase ascii_lower is_ascii_uppercase
lower_of_lower [] h = refl
lower_of_lower (c ∷ s) h = ground (arith, lower_of_lower s)

lookup-lower :
    (policy : List Text) (s : Text)
    → lookup policy s ≡ (if is_empty s then false else contains policy (to_ascii_lowercase s))
unfolding lookup
lookup-lower policy s = elim (Bool-cases (any is_ascii_uppercase s)) [
  | inl e ↦ rw (e, lookup) refl
  | inr e ↦ rw (e, lookup) (rw (lower_of_lower s e) refl)
]

text_eq_comm : (s t : Text) → text_eq s t ≡ text_eq t s
unfolding text_eq
text_eq_comm [] [] = refl
text_eq_comm [] (y ∷ t) = refl
text_eq_comm (x ∷ s) [] = refl
text_eq_comm (x ∷ s) (y ∷ t) = ground (arith, text_eq_comm s t)

is_empty-other : (s t : Text) → is_empty s ≡ true → is_empty t ≡ false → text_eq s t ≡ false
unfolding is_empty text_eq
is_empty-other [] [] h k = cc
is_empty-other [] (y ∷ t) h k = refl
is_empty-other (x ∷ s) t h k = cc

new-any :
    (extensions : List Text) (y : Text)
    → is_empty y ≡ false
    → contains (new extensions) y ≡ any (λ x. text_eq (normalize_extension x) y) extensions
unfolding new
new-any [] y h = refl
new-any (x ∷ xs) y h = elim (Bool-cases (is_empty (normalize_extension x))) [
  | inl e ↦ rw (e, new) (rw (is_empty-other (normalize_extension x) y e h) (new-any xs y h))
  | inr e ↦
      rw (e, new)
        (rw (text_eq_comm y (normalize_extension x))
          (ap (λ b. text_eq (normalize_extension x) y || b) (new-any xs y h)))
]

is_empty-lower : (s : Text) → is_empty (to_ascii_lowercase s) ≡ is_empty s
unfolding is_empty to_ascii_lowercase
is_empty-lower [] = refl
is_empty-lower (c ∷ s) = refl

-- An extension is in the policy made of some extensions exactly if it is not blank and is one of
-- them up to white space, leading dots and the case of ASCII letters.
pub contains_extension-new :
    (extensions : List Text) (extension : Text)
    → contains_extension (new extensions) extension ≡ (
        not (is_empty (normalize_extension extension))
        && any (λ x. text_eq (normalize_extension x) (normalize_extension extension)) extensions)
unfolding contains_extension normalize_extension
contains_extension-new extensions extension =
    let e = bare extension in
    lookup-lower (new extensions) e ∙ (elim (Bool-cases (is_empty e)) [
      | inl h ↦ rw (is_empty-lower e) (rw h refl)
      | inr h ↦
          let k : is_empty (to_ascii_lowercase e) ≡ false = is_empty-lower e ∙ h in
          rw (h, k) (new-any extensions (to_ascii_lowercase e) k)
    ])
