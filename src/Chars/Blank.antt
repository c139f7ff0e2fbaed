-- ===== src/Chars/Blank.antt =====
-- Texts of white space only.
use scriptmetakit.Chars.{
  Text, is_whitespace, trim, trim_start, trim_end, keep_end, is_blank_tail, is_empty,
}
use scriptmetakit.Prelude.{
  ℕ, true, false, [], ◌∷◌, ◌++◌, ◌≡◌, refl, sym, ◌∙◌, arith, all, drop_while, drop_while-HeadFails,
  HeadFails, Bool-cases, inl, inr,
}

abbrev pub HasText : Text → Type 0
HasText value = is_empty (trim value) ≡ false

blank_start : (s : Text) → is_empty (drop_while is_whitespace s) ≡ true → all is_whitespace s ≡ true
unfolding is_empty
blank_start [] h = refl
blank_start (c ∷ s) h = elim (Bool-cases (is_whitespace c)) [
  | inl e ↦ rw e (blank_start s (rw e at h))
  | inr e ↦ let q = (rw e at h) in cc
]

start_blank : (s : Text) → all is_whitespace s ≡ true → drop_while is_whitespace s ≡ []
start_blank [] h = refl
start_blank (c ∷ s) h = ground (arith, start_blank s)

blank_tail_space :
    (c : ℕ) (rest : Text)
    → is_whitespace c ≡ false
    → is_blank_tail c rest ≡ true
    → is_empty (keep_end c rest) ≡ false
unfolding is_blank_tail
blank_tail_space c [] h k = let q = sym h ∙ k in cc
blank_tail_space c (d ∷ rest) h k = cc

trim_end-first : (c : ℕ) (s : Text) → is_whitespace c ≡ false → is_empty (trim_end (c ∷ s)) ≡ false
unfolding trim_end keep_end is_blank_tail is_empty
trim_end-first c s h = elim (Bool-cases (is_blank_tail c (trim_end s))) [
  | inl e ↦ blank_tail_space c (trim_end s) h e
  | inr e ↦ rw (e, keep_end) refl
]

first-is_empty :
    (t : Text) → HeadFails is_whitespace t → is_empty (trim_end t) ≡ true → is_empty t ≡ true
unfolding is_empty
first-is_empty [] h k = refl
first-is_empty (c ∷ t) h k = let q = sym k ∙ trim_end-first c t h in cc

trim-all : (s : Text) → is_empty (trim s) ≡ true → all is_whitespace s ≡ true
unfolding trim trim_start
trim-all s h =
    blank_start s
      (first-is_empty (drop_while is_whitespace s) (drop_while-HeadFails is_whitespace s) h)

all-trim : (s : Text) → all is_whitespace s ≡ true → is_empty (trim s) ≡ true
unfolding trim trim_start trim_end is_empty
all-trim s h = rw (start_blank s h) refl

all-append : (s t : Text) → all is_whitespace (s ++ t) ≡ true → all is_whitespace t ≡ true
all-append [] t h = h
all-append (c ∷ s) t h = all-append s t (ground arith)

pub HasText-append : (s t : Text) → HasText t → HasText (s ++ t)
HasText-append s t h = elim (Bool-cases (is_empty (trim (s ++ t)))) [
  | inr e ↦ e
  | inl e ↦ let q = sym h ∙ all-trim t (all-append s t (trim-all (s ++ t) e)) in cc
]
