-- ===== src/Version/Zeros.antt =====
-- A version beside itself with one more component: `0`, or a word.
use scriptmetakit.Chars.{Text, is_ascii_alphabetic, is_ascii_digit, is_ascii_alphanumeric, codes}
use scriptmetakit.Prelude.{
  ℕ, ◌≡◌, refl, sym, ap, ◌∙◌, List, [], ◌∷◌, ◌++◌, some, arith, All, All-imp, Holds,
  take_while_of_All, drop_while_of_All, append-nil, true, false,
}
use scriptmetakit.Version.Compare.{compare_versions-segments}
use scriptmetakit.Version.Order.{compare_lists-append}
use scriptmetakit.Version.Segments.{segments, segments-some, segments-none, compare_lists}
use scriptmetakit.Version.Words.{segments-dot, next-start, next-nil}
use scriptmetakit.Version.{
  less, equal, greater, VersionSegment, number, text, next, next_of, same_class, segment_of,
  parse_u64_lossy, fold_digits, push_digit, checked, compare_versions, version_ordering,
  compare_segment,
}

abbrev pub zero_text : Text
zero_text = codes "0"

segments-zero : segments zero_text ≡ number 0 ∷ []
unfolding next next_of is_ascii_alphanumeric segment_of parse_u64_lossy fold_digits push_digit
    checked same_class
segments-zero = segments-some zero_text refl ∙ ap (λ l. number 0 ∷ l) (segments-none [] refl)

word_class : (c : ℕ) → is_ascii_alphabetic c ≡ true → same_class false c ≡ true
unfolding same_class is_ascii_alphanumeric
word_class c h = ground arith

word_not_digit : (c : ℕ) → is_ascii_alphabetic c ≡ true → is_ascii_digit c ≡ false
unfolding is_ascii_alphabetic is_ascii_digit
word_not_digit c h = ground arith

word_alphanumeric : (c : ℕ) → is_ascii_alphabetic c ≡ true → is_ascii_alphanumeric c ≡ true
unfolding is_ascii_alphanumeric
word_alphanumeric c h = rw h refl

next_of-word :
    (c : ℕ) (w : Text)
    → All (Holds is_ascii_alphabetic) (c ∷ w)
    → next_of (c ∷ w) ≡ some (text (c ∷ w), [])
unfolding next_of segment_of
next_of-word c w h =
    let k = All-imp w word_class h.1 in
    rw
      (
        word_not_digit c h.0,
        take_while_of_All (same_class false) w k,
        drop_while_of_All (same_class false) w k,
      )
      refl

segments-word :
    (c : ℕ) (w : Text)
    → All (Holds is_ascii_alphabetic) (c ∷ w)
    → segments (c ∷ w) ≡ text (c ∷ w) ∷ []
segments-word c w h =
    segments-some (c ∷ w) (next-start c w (word_alphanumeric c h.0) ∙ next_of-word c w h)
    ∙ ap (λ l. text (c ∷ w) ∷ l) (segments-none [] next-nil)

compare_by :
    (s t : Text) (xs ys : List VersionSegment)
    → segments s ≡ xs
    → segments t ≡ ys
    → compare_versions s t ≡ some (version_ordering (compare_lists xs ys))
compare_by s t xs ys h k = compare_versions-segments s t ∙ rw (h, k) refl

-- Behind a version `s` let `0` or a word `w` of ASCII letters be one more component. Then `s.0` is
-- equal to `s`, the word is after `s`, and yet the word is before `s.0`: versions that are equal
-- are not interchangeable.
pub compare_versions_zero_word :
    (s : Text) (c : ℕ) (w : Text)
    → All (Holds is_ascii_alphabetic) (c ∷ w)
    → (compare_versions (s ++ b'.' ∷ zero_text) s ≡ some equal)
      × (compare_versions (s ++ b'.' ∷ (c ∷ w)) s ≡ some greater)
      × (compare_versions (s ++ b'.' ∷ (c ∷ w)) (s ++ b'.' ∷ zero_text) ≡ some less)
unfolding version_ordering compare_segment compare_lists
compare_versions_zero_word s c w h =
    let g = segments s in
    let z = segments-dot s zero_text ∙ ap (λ l. g ++ l) segments-zero in
    let u = segments-dot s (c ∷ w) ∙ ap (λ l. g ++ l) (segments-word c w h) in
    let e = sym (append-nil g) in
    (
      compare_by _ _ _ _ z e ∙ rw (compare_lists-append g (number 0 ∷ []) []) refl,
      compare_by _ _ _ _ u e ∙ rw (compare_lists-append g (text (c ∷ w) ∷ []) []) refl,
      compare_by _ _ _ _ u z ∙ rw (compare_lists-append g (text (c ∷ w) ∷ []) (number 0 ∷ [])) refl,
    )
