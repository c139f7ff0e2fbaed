-- ===== src/Parser/Html/Tags.antt =====
-- What `strip_html_tags` leaves of a text.
use scriptmetakit.Chars.Search.{find_char}
use scriptmetakit.Chars.{Text, is_whitespace}
use scriptmetakit.Parser.Html.{tag_output, tag_end, is_html_break_tag, strip_from, strip_html_tags}
use scriptmetakit.Prelude.{
  ℕ, zero, suc, Bool, true, false, [], ◌∷◌, ◌++◌, none, ◌==◌, take, ◌≡◌, ◌↔◌, refl, ap, subst,
  Bool-cases, Option-cases, inl, inr,
}

-- No `<` has a `>` somewhere behind it.
abbrev pub NoTag : Text → Type 0
NoTag [] = Unit
NoTag (c ∷ s) = (tag_end c s ≡ none) × NoTag s

find_char-behind : (mark c : ℕ) (s : Text) → find_char mark (c ∷ s) ≡ none → find_char mark s ≡ none
unfolding find_char
find_char-behind mark c s h = elim (Bool-cases (c == mark)) [
  | inl e ↦ let q = (rw (e, find_char) at h) in cc
  | inr e ↦ elim (Option-cases (find_char mark s)) [
    | inl k ↦ k
    | inr (i, k) ↦ let q = (rw (e, k, find_char) at h) in cc
  ]
]

NoTag-behind_output :
    (ends_with_space : Bool) (tag t : Text) → NoTag t → NoTag (tag_output ends_with_space tag ++ t)
unfolding tag_output tag_end
NoTag-behind_output ends_with_space tag t h = elim (Bool-cases (is_html_break_tag tag)) [
  | inl e ↦ rw (e, tag_output) (refl, h)
  | inr e ↦ elim (Bool-cases ends_with_space) [
    | inl k ↦ rw (e, k, tag_output) h
    | inr k ↦ rw (e, k, tag_output) (refl, h)
  ]
]

find_char-behind_output :
    (ends_with_space : Bool) (tag t : Text)
    → find_char b'>' t ≡ none
    → find_char b'>' (tag_output ends_with_space tag ++ t) ≡ none
unfolding tag_output find_char
find_char-behind_output ends_with_space tag t h = elim (Bool-cases (is_html_break_tag tag)) [
  | inl e ↦ rw (e, tag_output) (rw (h, find_char) refl)
  | inr e ↦ elim (Bool-cases ends_with_space) [
    | inl k ↦ rw (e, k, tag_output) h
    | inr k ↦ rw (e, k, tag_output) (rw (h, find_char) refl)
  ]
]

-- No `>` is made.
strip_from-no_close :
    (used : ℕ) (ends_with_space : Bool) (s : Text)
    → find_char b'>' s ≡ none
    → find_char b'>' (strip_from used ends_with_space s) ≡ none
unfolding strip_from find_char
strip_from-no_close used b [] h = refl
strip_from-no_close (suc used) b (c ∷ s) h =
    strip_from-no_close used b s (find_char-behind b'>' c s h)
strip_from-no_close zero b (c ∷ s) h = elim (Option-cases (tag_end c s)) [
  | inr (end, e) ↦
      rw (e, strip_from)
        (find_char-behind_output b (take end s) _
          (strip_from-no_close (suc end) true s (find_char-behind b'>' c s h)))
  | inl e ↦
      rw (e, strip_from)
        (elim (Bool-cases (c == b'>')) [
          | inl k ↦ let q = (rw (k, find_char) at h) in cc
          | inr k ↦
              rw (k, find_char)
                (rw (strip_from-no_close zero (is_whitespace c) s (find_char-behind b'>' c s h))
                  refl)
        ])
]

kept :
    (c : ℕ) (s : Text) → tag_end c s ≡ none → tag_end c (strip_from zero (is_whitespace c) s) ≡ none
unfolding tag_end
kept c s h = elim (Bool-cases (c == b'<')) [
  | inl e ↦ rw (e, tag_end) (strip_from-no_close zero (is_whitespace c) s (rw (e, tag_end) at h))
  | inr e ↦ rw (e, tag_end) refl
]

strip_from-NoTag :
    (used : ℕ) (ends_with_space : Bool) (s : Text) → NoTag (strip_from used ends_with_space s)
unfolding strip_from
strip_from-NoTag used b [] = tt
strip_from-NoTag (suc used) b (c ∷ s) = strip_from-NoTag used b s
strip_from-NoTag zero b (c ∷ s) = elim (Option-cases (tag_end c s)) [
  | inr (end, e) ↦
      rw (e, strip_from) (NoTag-behind_output b (take end s) _ (strip_from-NoTag (suc end) true s))
  | inl e ↦ rw (e, strip_from) (kept c s e, strip_from-NoTag zero (is_whitespace c) s)
]

strip_from_of_NoTag :
    (ends_with_space : Bool) (s : Text) → NoTag s → strip_from zero ends_with_space s ≡ s
unfolding strip_from
strip_from_of_NoTag b [] h = refl
strip_from_of_NoTag b (c ∷ s) (none_here, h) =
    rw (none_here, strip_from) (ap (λ l. c ∷ l) (strip_from_of_NoTag (is_whitespace c) s h))

-- What is left of a text holds no `<` with a `>` behind it, and a text is left as it is exactly if
-- it holds no such `<`.
pub strip_html_tags-NoTag :
    (text : Text) → NoTag (strip_html_tags text) × ((strip_html_tags text ≡ text) ↔ NoTag text)
unfolding strip_html_tags
strip_html_tags-NoTag text = (
  strip_from-NoTag 0 false text,
  ((λ same. subst NoTag same (strip_from-NoTag 0 false text)), strip_from_of_NoTag false text),
)

-- Stripping the tags again changes nothing.
pub strip_html_tags_idem :
    (text : Text) → strip_html_tags (strip_html_tags text) ≡ strip_html_tags text
strip_html_tags_idem text =
    (strip_html_tags-NoTag (strip_html_tags text)).1.1 (strip_html_tags-NoTag text).0
