-- ===== src/Chars/Shrinks.antt =====
-- Texts from which something is taken.
use scriptmetakit.Chars.{Text, trim_end, is_blank_tail, keep_end}
use scriptmetakit.Prelude.{
  ℕ, ◌<◌, Bool, [], ◌∷◌, length, drop_while, ◌≡◌, refl, sym, ap, ◌∙◌, subst, Bool-cases, ◌⊎◌, inl,
  inr, arith,
}

-- A text that is left as it is or gets shorter.
abbrev pub Shrinks : Text → Text → Type 0
Shrinks s t = (t ≡ s) ⊎ (length t < length s)

pub Shrinks-trans : (s t u : Text) → Shrinks s t → Shrinks t u → Shrinks s u
Shrinks-trans s t u (inl e) (inl k) = inl (k ∙ e)
Shrinks-trans s t u (inl e) (inr k) = inr (subst (λ l. length u < length l) e k)
Shrinks-trans s t u (inr h) (inl k) = inr (subst (λ l. length l < length s) (sym k) h)
Shrinks-trans s t u (inr h) (inr k) = inr (omega (arith, h, k))

pub Shrinks-behind : (c : ℕ) (s t : Text) → Shrinks s t → Shrinks (c ∷ s) (c ∷ t)
Shrinks-behind c s t (inl e) = inl (ap (λ l. c ∷ l) e)
Shrinks-behind c s t (inr h) = inr (omega (arith, h))

Shrinks-more : (c : ℕ) (s t : Text) → Shrinks s t → Shrinks (c ∷ s) t
Shrinks-more c s t (inl e) = inr (rw e (omega arith))
Shrinks-more c s t (inr h) = inr (omega (arith, h))

pub drop_while-Shrinks : (p : ℕ → Bool) (s : Text) → Shrinks s (drop_while p s)
drop_while-Shrinks p [] = inl refl
drop_while-Shrinks p (c ∷ s) = elim (Bool-cases (p c)) [
  | inl e ↦ rw e (Shrinks-more c s (drop_while p s) (drop_while-Shrinks p s))
  | inr e ↦ rw e (inl refl)
]

pub trim_end-Shrinks : (s : Text) → Shrinks s (trim_end s)
unfolding trim_end keep_end is_blank_tail
trim_end-Shrinks [] = inl refl
trim_end-Shrinks (c ∷ s) = elim (Bool-cases (is_blank_tail c (trim_end s))) [
  | inl e ↦ rw (e, keep_end) (inr (omega arith))
  | inr e ↦ rw (e, keep_end) (Shrinks-behind c s (trim_end s) (trim_end-Shrinks s))
]
