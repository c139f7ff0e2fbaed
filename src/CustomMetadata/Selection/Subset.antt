-- ===== src/CustomMetadata/Selection/Subset.antt =====
-- `is_subset_of` against `contains`.
use scriptmetakit.Chars.{Text, text_eq_iff, text_eq_refl, eq_ignore_ascii_case, to_ascii_lowercase}
use scriptmetakit.CustomMetadata.Selection.{CustomMetadataSelection, is_all, contains, is_subset_of}
use scriptmetakit.Prelude.{
  suc, ◌<◌, true, false, List, [], ◌∷◌, ◌++◌, any, all, length, length-append, ◌≡◌, ◌↔◌, refl, sym,
  ap, ◌∙◌, arith, Bool-cases, inl, inr, or_true, Elem, any-Elem, Elem-any,
}

eq_refl : (s : Text) → eq_ignore_ascii_case s s ≡ true
unfolding eq_ignore_ascii_case
eq_refl s = text_eq_refl (to_ascii_lowercase s)

pub eq_trans :
    (r s t : Text)
    → eq_ignore_ascii_case r s ≡ true
    → eq_ignore_ascii_case s t ≡ true
    → eq_ignore_ascii_case r t ≡ true
unfolding eq_ignore_ascii_case
eq_trans r s t h k = (text_eq_iff _ _).1 ((text_eq_iff _ _).0 h ∙ (text_eq_iff _ _).0 k)

pub eq_sym : (s t : Text) → eq_ignore_ascii_case s t ≡ true → eq_ignore_ascii_case t s ≡ true
unfolding eq_ignore_ascii_case
eq_sym s t h = (text_eq_iff _ _).1 (sym ((text_eq_iff _ _).0 h))

length-lower : (s : Text) → length (to_ascii_lowercase s) ≡ length s
unfolding to_ascii_lowercase
length-lower [] = refl
length-lower (c ∷ s) = ap suc (length-lower s)

eq-length : (s t : Text) → eq_ignore_ascii_case s t ≡ true → length s ≡ length t
unfolding eq_ignore_ascii_case
eq-length s t h = sym (length-lower s) ∙ ap length ((text_eq_iff _ _).0 h) ∙ length-lower t

any-eq :
    (values : List Text) (v key : Text)
    → eq_ignore_ascii_case v key ≡ true
    → any (λ value. eq_ignore_ascii_case value v) values ≡ true
    → any (λ value. eq_ignore_ascii_case value key) values ≡ true
any-eq values v key e h =
    let (w, m, k) = any-Elem _ values h in Elem-any _ values w m (eq_trans w v key k e)

contains-eq :
    (previous : CustomMetadataSelection) (v key : Text)
    → eq_ignore_ascii_case v key ≡ true
    → contains previous v ≡ true
    → contains previous key ≡ true
unfolding contains
contains-eq previous v key e h = elim (Bool-cases (is_all previous)) [
  | inl k ↦ rw (k, contains) refl
  | inr k ↦ rw (k, contains) (any-eq previous v key e (rw (k, contains) at h))
]

all-imp_any :
    (selection previous : CustomMetadataSelection) (key : Text)
    → all (contains previous) selection ≡ true
    → any (λ value. eq_ignore_ascii_case value key) selection ≡ true
    → contains previous key ≡ true
all-imp_any [] previous key h k = cc
all-imp_any (v ∷ vs) previous key h k = elim (or_true _ _ k) [
  | inl e ↦ contains-eq previous v key e (ground (arith, h))
  | inr e ↦ all-imp_any vs previous key (ground (arith, h)) e
]

-- A text that is longer than all of `texts` together.
long : List Text → Text
long [] = 0 ∷ []
long (t ∷ texts) = t ++ long texts

self_contained :
    (selection whole : CustomMetadataSelection)
    → ((v : Text) → Elem v selection → Elem v whole)
    → (previous : CustomMetadataSelection)
    → ((key : Text) → contains whole key ≡ true → contains previous key ≡ true)
    → all (contains previous) selection ≡ true
unfolding contains
self_contained [] whole sub previous h = refl
self_contained (v ∷ vs) whole sub previous h =
    let inside =
      Elem-any (λ value. eq_ignore_ascii_case value v) whole v (sub v (inl refl)) (eq_refl v) in
    let k = h v (ground (arith, inside)) in
    rw k (self_contained vs whole (λ w m. sub w (inr m)) previous h)

long-positive : (texts : List Text) → 0 < length (long texts)
unfolding long
long-positive [] = omega arith
long-positive (t ∷ ts) = omega (arith, length-append t (long ts), long-positive ts)

long-lt : (texts : List Text) (v : Text) → Elem v texts → length v < length (long texts)
unfolding long
long-lt [] v m = absurd m
long-lt (t ∷ ts) v (inl e) = rw (sym e) (omega (arith, length-append t (long ts), long-positive ts))
long-lt (t ∷ ts) v (inr m) = omega (arith, length-append t (long ts), long-lt ts v m)

missing :
    (selection : CustomMetadataSelection)
    → is_all selection ≡ false
    → contains selection (long selection) ≡ false
unfolding contains
missing selection h =
    elim (Bool-cases (any (λ value. eq_ignore_ascii_case value (long selection)) selection)) [
      | inr e ↦ rw (h, contains) e
      | inl e ↦
          let (v, m, k) = any-Elem _ selection e in
          absurd (omega (arith, long-lt selection v m, eq-length v (long selection) k))
    ]

is_all-contains :
    (selection : CustomMetadataSelection) (key : Text)
    → is_all selection ≡ true
    → contains selection key ≡ true
unfolding contains
is_all-contains selection key h = rw (h, contains) refl

is_subset_of_sound :
    (selection previous : CustomMetadataSelection)
    → is_subset_of selection previous ≡ true
    → (key : Text) → contains selection key ≡ true
    → contains previous key ≡ true
unfolding is_subset_of contains
is_subset_of_sound selection previous h key k = elim (Bool-cases (is_all previous)) [
  | inl e ↦ is_all-contains previous key e
  | inr e ↦ elim (Bool-cases (is_all selection)) [
    | inl f ↦ let q = (rw (e, f, is_subset_of) at h) in cc
    | inr f ↦
        all-imp_any selection previous key (rw (e, f, is_subset_of) at h) (rw (f, contains) at k)
  ]
]

is_subset_of_complete :
    (selection previous : CustomMetadataSelection)
    → ((key : Text) → contains selection key ≡ true → contains previous key ≡ true)
    → is_subset_of selection previous ≡ true
unfolding is_subset_of
is_subset_of_complete selection previous h = elim (Bool-cases (is_all previous)) [
  | inl e ↦ rw (e, is_subset_of) refl
  | inr e ↦ elim (Bool-cases (is_all selection)) [
    | inl f ↦
        let k = sym (h (long previous) (is_all-contains selection _ f)) ∙ missing previous e in cc
    | inr f ↦ rw (e, f, is_subset_of) (self_contained selection selection (λ v m. m) previous h)
  ]
]

-- One selection counts as a subset of another exactly if every key that it contains, in any case,
-- is contained in the other.
pub is_subset_of_iff :
    (selection previous : CustomMetadataSelection)
    → (is_subset_of selection previous ≡ true)
      ↔ ((key : Text) → contains selection key ≡ true → contains previous key ≡ true)
is_subset_of_iff selection previous =
    (is_subset_of_sound selection previous, is_subset_of_complete selection previous)
