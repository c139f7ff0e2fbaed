-- ===== src/CustomMetadata/Keys/Normal.antt =====
-- Laws of `normalize_custom_metadata_key`: the case of the letters does not matter.
use scriptmetakit.Chars.Search.{split, split_once, any_window}
use scriptmetakit.Chars.{
  Text, codes, to_ascii_lowercase, text_eq, text_eq_iff, eq_ignore_ascii_case, ascii_lower,
}
use scriptmetakit.CustomMetadata.Keys.Lowering.{
  lower_idem, take-lower, drop-lower, eq_ignore_ascii_case-lower, all-lower, split-lower,
  split_once-lower, creators-lower, first-lower, last-lower, field_byte-lower, prefix-lower,
  lower_both,
}
use scriptmetakit.CustomMetadata.Keys.{
  has_custom_metadata_prefix, field_byte, valid_parts, valid_key, contains_reserved_marker,
  reserved_markers, normalize_custom_metadata_key,
}
use scriptmetakit.Errors.{ok, ok_inj}
use scriptmetakit.Prelude.{
  Bool, true, false, not, ◌||◌, List, [], ◌∷◌, ◌++◌, Option, none, some, if◌then◌else◌, any, take,
  drop, length, ◌≡◌, refl, sym, ap, ◌∙◌, subst, arith, Bool-cases, inl, inr,
}

valid_parts-lower :
    (a b : Text) → valid_parts (to_ascii_lowercase a, to_ascii_lowercase b) ≡ valid_parts (a, b)
unfolding valid_parts
valid_parts-lower a b = rw (split-lower a) (
    rw (creators-lower (split b'.' a))
      (rw (first-lower b) (rw (last-lower b) (rw (all-lower field_byte b field_byte-lower) refl))))

abbrev valid_pair : Option (Text × Text) → Bool
valid_pair o = elim o [ none ↦ false | some parts ↦ valid_parts parts ]

valid_pair-lower : (o : Option (Text × Text)) → valid_pair (lower_both o) ≡ valid_pair o
valid_pair-lower none = refl
valid_pair-lower (some (a, b)) = valid_parts-lower a b

valid_key-lower : (s : Text) → valid_key (to_ascii_lowercase s) ≡ valid_key s
unfolding valid_key
valid_key-lower s = rw (prefix-lower s) (
    ap (λ b. if has_custom_metadata_prefix s then b else false)
      (ap (λ l. valid_pair (split_once b'-' l)) (drop-lower 2 s)
        ∙ ap valid_pair (split_once-lower (drop 2 s))
        ∙ valid_pair-lower (split_once b'-' (drop 2 s))))

any_window-lower :
    (s marker : Text) → any_window (to_ascii_lowercase s) marker ≡ any_window s marker
unfolding any_window to_ascii_lowercase
any_window-lower [] marker = refl
any_window-lower (c ∷ s) marker = rw (any_window-lower s marker) (
    ap (λ b. b || any_window s marker)
      (ap (λ l. eq_ignore_ascii_case l marker) (take-lower (length marker) (c ∷ s))
        ∙ eq_ignore_ascii_case-lower (take (length marker) (c ∷ s)) marker))

any_marker-lower :
    (s : Text) (markers : List Text)
    → any (any_window (to_ascii_lowercase s)) markers ≡ any (any_window s) markers
any_marker-lower s [] = refl
any_marker-lower s (m ∷ ms) =
    rw (any_window-lower s m) (ap (λ b. any_window s m || b) (any_marker-lower s ms))

same_case :
    {A : Type 0} (f : Text → A)
    → ((s : Text) → f (to_ascii_lowercase s) ≡ f s)
    → (a b : Text) → to_ascii_lowercase a ≡ to_ascii_lowercase b
    → f a ≡ f b
same_case f h a b e = sym (h a) ∙ ap f e ∙ h b

abbrev rejected : Text → Bool
rejected key = not (valid_key key) || contains_reserved_marker key

rejected-lower : (s : Text) → rejected (to_ascii_lowercase s) ≡ rejected s
unfolding contains_reserved_marker
rejected-lower s = rw (valid_key-lower s) (rw (any_marker-lower s reserved_markers) refl)

-- If a key has a normal form, a key that differs only in the case of ASCII letters has the same.
pub normalize_custom_metadata_key-eq_ignore_ascii_case :
    (a b n : Text)
    → eq_ignore_ascii_case a b ≡ true
    → normalize_custom_metadata_key a ≡ ok n
    → normalize_custom_metadata_key b ≡ ok n
unfolding normalize_custom_metadata_key eq_ignore_ascii_case
normalize_custom_metadata_key-eq_ignore_ascii_case a b n e h =
    let same = (text_eq_iff (to_ascii_lowercase a) (to_ascii_lowercase b)).0 e in
    let r = same_case rejected rejected-lower a b same in
    let d : to_ascii_lowercase (drop 2 a) ≡ to_ascii_lowercase (drop 2 b) =
      sym (drop-lower 2 a) ∙ ap (drop 2) same ∙ drop-lower 2 b in
    elim (Bool-cases (rejected a)) [
      | inl k ↦ let q = (rw (k, normalize_custom_metadata_key) at h) in cc
      | inr k ↦
          rw (sym r ∙ k, normalize_custom_metadata_key)
            (ap (λ l. ok (codes "X-" ++ l)) (sym d) ∙ (rw (k, normalize_custom_metadata_key) at h))
    ]

map-take-drop :
    (s : Text)
    → to_ascii_lowercase (take 2 s) ++ to_ascii_lowercase (drop 2 s) ≡ to_ascii_lowercase s
unfolding to_ascii_lowercase
map-take-drop [] = refl
map-take-drop (c ∷ []) = refl
map-take-drop (c ∷ d ∷ s) = refl

valid_key-prefix : (s : Text) → valid_key s ≡ true → has_custom_metadata_prefix s ≡ true
unfolding valid_key
valid_key-prefix s h = elim (Bool-cases (has_custom_metadata_prefix s)) [
  | inl e ↦ e
  | inr e ↦ let q = (rw (e, valid_key) at h) in cc
]

lower-front :
    (t : Text)
    → to_ascii_lowercase (codes "X-" ++ t) ≡ to_ascii_lowercase (codes "X-") ++ to_ascii_lowercase t
unfolding to_ascii_lowercase
lower-front t = refl

normal-same :
    (key : Text)
    → has_custom_metadata_prefix key ≡ true
    → eq_ignore_ascii_case key (codes "X-" ++ to_ascii_lowercase (drop 2 key)) ≡ true
unfolding has_custom_metadata_prefix eq_ignore_ascii_case
normal-same key h =
    let x = (text_eq_iff (to_ascii_lowercase (take 2 key)) (to_ascii_lowercase (codes "X-"))).0 h in
    (text_eq_iff _ _).1 (
      sym (map-take-drop key)
      ∙ ap (λ l. l ++ to_ascii_lowercase (drop 2 key)) x
      ∙ ap (λ l. to_ascii_lowercase (codes "X-") ++ l) (sym (lower_idem (drop 2 key)))
      ∙ sym (lower-front (to_ascii_lowercase (drop 2 key))))

valid_of_rejected : (s : Text) → rejected s ≡ false → valid_key s ≡ true
valid_of_rejected s h = ground arith

-- A normal form differs from its key in the case of ASCII letters at most, and is its own normal
-- form.
pub normalize_custom_metadata_key_idem :
    (key n : Text)
    → normalize_custom_metadata_key key ≡ ok n
    → (eq_ignore_ascii_case key n ≡ true) × (normalize_custom_metadata_key n ≡ ok n)
unfolding normalize_custom_metadata_key
normalize_custom_metadata_key_idem key n h = elim (Bool-cases (rejected key)) [
  | inl k ↦ let q = (rw (k, normalize_custom_metadata_key) at h) in cc
  | inr k ↦
      let e = ok_inj (rw (k, normalize_custom_metadata_key) at h) in
      let valid = valid_of_rejected key k in
      let same =
        subst (λ l. eq_ignore_ascii_case key l ≡ true) e
          (normal-same key (valid_key-prefix key valid)) in
      (same, normalize_custom_metadata_key-eq_ignore_ascii_case key n n same h)
]

all_keys_rejected : valid_key (codes "X-") ≡ false
unfolding valid_key has_custom_metadata_prefix eq_ignore_ascii_case text_eq to_ascii_lowercase
    ascii_lower split_once
all_keys_rejected = refl

-- The key of all keys has no normal form.
pub normalize_custom_metadata_key-all_keys :
    (n : Text) → normalize_custom_metadata_key (codes "X-") ≡ ok n → ⊥
unfolding normalize_custom_metadata_key
normalize_custom_metadata_key-all_keys n h =
    let q = (rw (all_keys_rejected, normalize_custom_metadata_key) at h) in absurd cc
