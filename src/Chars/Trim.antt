-- ===== src/Chars/Trim.antt =====
-- Laws of `trim`.
use scriptmetakit.Chars.{Text, is_whitespace, trim, trim_start, trim_end, keep_end, is_blank_tail}
use scriptmetakit.Prelude.{
  ℕ, [], ◌∷◌, ◌++◌, ◌≡◌, refl, ap, ◌∙◌, HeadFails, drop_while-HeadFails, drop_while_of_HeadFails,
  Bool-cases, inl, inr,
}

trim_end-keep_end : (c : ℕ) (s : Text) → trim_end s ≡ s → trim_end (keep_end c s) ≡ keep_end c s
unfolding trim_end keep_end
trim_end-keep_end c s h = elim (Bool-cases (is_blank_tail c s)) [
  | inl e ↦ rw e refl
  | inr e ↦ rw e (rw (h, e) refl)
]

trim_end_idem : (s : Text) → trim_end (trim_end s) ≡ trim_end s
unfolding trim_end
trim_end_idem [] = refl
trim_end_idem (c ∷ s) = trim_end-keep_end c (trim_end s) (trim_end_idem s)

trim_end-HeadFails : (s : Text) → HeadFails is_whitespace s → HeadFails is_whitespace (trim_end s)
unfolding trim_end keep_end is_blank_tail
trim_end-HeadFails [] h = tt
trim_end-HeadFails (c ∷ s) h = elim (Bool-cases (is_blank_tail c (trim_end s))) [
  | inl e ↦ rw (e, keep_end) tt
  | inr e ↦ rw (e, keep_end) h
]

pub trim_idem : (s : Text) → trim (trim s) ≡ trim s
unfolding trim trim_start
trim_idem s =
    let start = drop_while-HeadFails is_whitespace s in
    ap trim_end (drop_while_of_HeadFails is_whitespace _ (trim_end-HeadFails _ start))
    ∙ trim_end_idem (trim_start s)

trim_end_space : (s : Text) → trim_end (s ++ b' ' ∷ []) ≡ trim_end s
unfolding trim_end keep_end is_blank_tail is_whitespace
trim_end_space [] = refl
trim_end_space (c ∷ s) = ap (keep_end c) (trim_end_space s)

pub trim_space : (s : Text) → trim (s ++ b' ' ∷ []) ≡ trim s
unfolding trim trim_start trim_end is_whitespace
trim_space [] = trim_end_space []
trim_space (c ∷ s) = elim (Bool-cases (is_whitespace c)) [
  | inl e ↦ rw (e, trim_start) (trim_space s)
  | inr e ↦ rw (e, trim_start) (trim_end_space (c ∷ s))
]
