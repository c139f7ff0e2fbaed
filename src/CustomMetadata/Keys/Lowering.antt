-- ===== src/CustomMetadata/Keys/Lowering.antt =====
-- The tests of src/core/custom_metadata.rs on texts in lower case.
use scriptmetakit.Chars.Search.{split, split_once, consed}
use scriptmetakit.Chars.{
  Text, codes, ascii_lower, ascii_lower_idem, to_ascii_lowercase, text_eq, eq_ignore_ascii_case,
  is_ascii_digit, is_ascii_alphabetic, is_ascii_alphanumeric, is_empty,
}
use scriptmetakit.CustomMetadata.Keys.{
  has_custom_metadata_prefix, creator_part, first_alphanumeric, last_alphanumeric, field_byte,
}
use scriptmetakit.Prelude.{
  ℕ, zero, suc, Bool, ◌&&◌, List, [], ◌∷◌, map, Option, none, some, ◌==◌, all, take, drop, ◌≡◌,
  refl, sym, ap, ◌∙◌, arith, Bool-cases, inl, inr,
}

alphanumeric-lower : (c : ℕ) → is_ascii_alphanumeric (ascii_lower c) ≡ is_ascii_alphanumeric c
unfolding is_ascii_alphanumeric ascii_lower is_ascii_digit is_ascii_alphabetic
alphanumeric-lower c = ground arith

is_dash-lower : (c : ℕ) → (ascii_lower c == b'-') ≡ (c == b'-')
unfolding ascii_lower
is_dash-lower c = ground arith

is_dot-lower : (c : ℕ) → (ascii_lower c == b'.') ≡ (c == b'.')
unfolding ascii_lower
is_dot-lower c = ground arith

pub lower_idem : (s : Text) → to_ascii_lowercase (to_ascii_lowercase s) ≡ to_ascii_lowercase s
unfolding to_ascii_lowercase
lower_idem [] = refl
lower_idem (c ∷ s) = rw (ascii_lower_idem c) (ap (λ l. ascii_lower c ∷ l) (lower_idem s))

pub take-lower : (n : ℕ) (s : Text) → take n (to_ascii_lowercase s) ≡ to_ascii_lowercase (take n s)
unfolding to_ascii_lowercase
take-lower zero s = refl
take-lower (suc n) [] = refl
take-lower (suc n) (c ∷ s) = ap (λ l. ascii_lower c ∷ l) (take-lower n s)

pub drop-lower : (n : ℕ) (s : Text) → drop n (to_ascii_lowercase s) ≡ to_ascii_lowercase (drop n s)
unfolding to_ascii_lowercase
drop-lower zero s = refl
drop-lower (suc n) [] = refl
drop-lower (suc n) (c ∷ s) = drop-lower n s

pub eq_ignore_ascii_case-lower :
    (s t : Text) → eq_ignore_ascii_case (to_ascii_lowercase s) t ≡ eq_ignore_ascii_case s t
unfolding eq_ignore_ascii_case
eq_ignore_ascii_case-lower s t = ap (λ l. text_eq l (to_ascii_lowercase t)) (lower_idem s)

pub prefix-lower :
    (s : Text) → has_custom_metadata_prefix (to_ascii_lowercase s) ≡ has_custom_metadata_prefix s
unfolding has_custom_metadata_prefix
prefix-lower s =
    ap (λ l. eq_ignore_ascii_case l (codes "X-")) (take-lower 2 s)
    ∙ eq_ignore_ascii_case-lower (take 2 s) (codes "X-")

pub all-lower :
    (p : ℕ → Bool) (s : Text)
    → ((c : ℕ) → p (ascii_lower c) ≡ p c)
    → all p (to_ascii_lowercase s) ≡ all p s
unfolding to_ascii_lowercase
all-lower p [] h = refl
all-lower p (c ∷ s) h = rw (h c) (ap (λ b. p c && b) (all-lower p s h))

creator_part-lower : (s : Text) → creator_part (to_ascii_lowercase s) ≡ creator_part s
unfolding creator_part to_ascii_lowercase is_empty
creator_part-lower [] = refl
creator_part-lower (c ∷ s) = all-lower is_ascii_alphanumeric (c ∷ s) alphanumeric-lower

map-consed :
    (x : ℕ) (parts : List Text)
    → map to_ascii_lowercase (consed x parts)
      ≡ consed (ascii_lower x) (map to_ascii_lowercase parts)
unfolding consed to_ascii_lowercase
map-consed x [] = refl
map-consed x (part ∷ parts) = refl

pub split-lower :
    (s : Text) → split b'.' (to_ascii_lowercase s) ≡ map to_ascii_lowercase (split b'.' s)
unfolding split to_ascii_lowercase
split-lower [] = refl
split-lower (c ∷ s) = rw (is_dot-lower c) (elim (Bool-cases (c == b'.')) [
  | inl e ↦ rw e (ap (λ l. [] ∷ l) (split-lower s))
  | inr e ↦ rw e (ap (consed (ascii_lower c)) (split-lower s) ∙ sym (map-consed c (split b'.' s)))
])

abbrev pub lower_both : Option (Text × Text) → Option (Text × Text)
lower_both none = none
lower_both (some (a, b)) = some (to_ascii_lowercase a, to_ascii_lowercase b)

split_once-cons :
    (c : ℕ) (o : Option (Text × Text))
    → (elim (lower_both o) [ none ↦ none | some (a, b) ↦ some (ascii_lower c ∷ a, b) ])
      ≡ lower_both (elim o [ none ↦ none | some (a, b) ↦ some (c ∷ a, b) ])
unfolding to_ascii_lowercase
split_once-cons c none = refl
split_once-cons c (some (a, b)) = refl

pub split_once-lower :
    (s : Text) → split_once b'-' (to_ascii_lowercase s) ≡ lower_both (split_once b'-' s)
unfolding split_once to_ascii_lowercase
split_once-lower [] = refl
split_once-lower (c ∷ s) = rw (is_dash-lower c) (elim (Bool-cases (c == b'-')) [
  | inl e ↦ rw e refl
  | inr e ↦ rw e (rw (split_once-lower s) (split_once-cons c (split_once b'-' s)))
])

pub creators-lower :
    (parts : List Text) → all creator_part (map to_ascii_lowercase parts) ≡ all creator_part parts
creators-lower [] = refl
creators-lower (part ∷ parts) =
    rw (creator_part-lower part) (ap (λ b. creator_part part && b) (creators-lower parts))

pub first-lower : (s : Text) → first_alphanumeric (to_ascii_lowercase s) ≡ first_alphanumeric s
unfolding first_alphanumeric to_ascii_lowercase
first-lower [] = refl
first-lower (c ∷ s) = alphanumeric-lower c

pub last-lower : (s : Text) → last_alphanumeric (to_ascii_lowercase s) ≡ last_alphanumeric s
unfolding last_alphanumeric to_ascii_lowercase
last-lower [] = refl
last-lower (c ∷ []) = alphanumeric-lower c
last-lower (c ∷ d ∷ s) = last-lower (d ∷ s)

pub field_byte-lower : (c : ℕ) → field_byte (ascii_lower c) ≡ field_byte c
unfolding field_byte
field_byte-lower c = rw (alphanumeric-lower c) (rw (is_dash-lower c) refl)
