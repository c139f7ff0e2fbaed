-- ===== src/Version/Words.antt =====
-- The segments of a text with no letters, and of two texts joined by a dot.
use scriptmetakit.Chars.{Text, is_ascii_alphanumeric, is_ascii_alphabetic, is_ascii_digit}
use scriptmetakit.Prelude.{
  ℕ, zero, suc, ◌<◌, ◌≡◌, refl, sym, ap, ◌∙◌, Bool, true, false, not, [], ◌∷◌, ◌++◌, Option, none,
  some, arith, length, All, Fails, drop_while, drop_while-HeadFails, All-drop_while,
  take_while-stop, drop_while-stop, inl, inr, Option-cases, Bool-cases, HeadFails,
}
use scriptmetakit.Version.Order.{IsNumber}
use scriptmetakit.Version.Segments.{segments, segments-none, segments-some, length-next}
use scriptmetakit.Version.{VersionSegment, next, next_of, same_class, segment_of}

-- The joining dot belongs to no segment.
extend : Option (VersionSegment × Text) → Text → Option (VersionSegment × Text)
extend none t = next t
extend (some (g, r)) t = some (g, r ++ b'.' ∷ t)

same_class-dot : (numeric : Bool) → same_class numeric b'.' ≡ false
unfolding same_class is_ascii_alphanumeric
same_class-dot true = refl
same_class-dot false = refl

next_of-dot : (c : ℕ) (s t : Text) → next_of ((c ∷ s) ++ b'.' ∷ t) ≡ extend (next_of (c ∷ s)) t
unfolding next_of extend
next_of-dot c s t =
    let p = same_class (is_ascii_digit c) in
    let e = same_class-dot (is_ascii_digit c) in
    rw (take_while-stop p s b'.' t e, drop_while-stop p s b'.' t e) refl

next-skip : (c : ℕ) (s : Text) → is_ascii_alphanumeric c ≡ false → next (c ∷ s) ≡ next s
unfolding next
next-skip c s h = rw h refl

pub next-start :
    (c : ℕ) (s : Text) → is_ascii_alphanumeric c ≡ true → next (c ∷ s) ≡ next_of (c ∷ s)
unfolding next
next-start c s h = rw h refl

pub next-nil : next [] ≡ none
unfolding next next_of
next-nil = refl

next-dot : (s t : Text) → next (s ++ b'.' ∷ t) ≡ extend (next s) t
unfolding extend next_of
next-dot [] t = next-skip b'.' t (unfold is_ascii_alphanumeric in refl) ∙ rw next-nil refl
next-dot (c ∷ s) t = elim (Bool-cases (is_ascii_alphanumeric c)) [
  | inl e ↦ next-start c (s ++ b'.' ∷ t) e ∙ rw (next-start c s e) (next_of-dot c s t)
  | inr e ↦ next-skip c (s ++ b'.' ∷ t) e ∙ rw (next-skip c s e) (next-dot s t)
]

segments-next : (a b : Text) → next a ≡ next b → segments a ≡ segments b
segments-next a b h = elim (Option-cases (next b)) [
  | inl e ↦ segments-none a (h ∙ e) ∙ sym (segments-none b e)
  | inr (p, e) ↦ segments-some a (h ∙ e) ∙ sym (segments-some b e)
]

segments-dot_within :
    (f : ℕ) (s t : Text) → length s < f → segments (s ++ b'.' ∷ t) ≡ segments s ++ segments t
unfolding extend
segments-dot_within zero s t h = absurd (omega arith)
segments-dot_within (suc f) s t h = elim (Option-cases (next s)) [
  | inl e ↦ rw (segments-none s e) (segments-next _ t (next-dot s t ∙ rw e refl))
  | inr (p, e) ↦
      segments-some (s ++ b'.' ∷ t) {g = p.0} {r = p.1 ++ b'.' ∷ t} (next-dot s t ∙ rw e refl)
      ∙ rw (segments-some s e)
          (ap (λ l. p.0 ∷ l) (segments-dot_within f p.1 t (omega (arith, length-next s e))))
]

-- A dot separates segments.
pub segments-dot : (s t : Text) → segments (s ++ b'.' ∷ t) ≡ segments s ++ segments t
segments-dot s t = segments-dot_within (suc (length s)) s t (omega arith)

abbrev pub NoLetters : Text → Type 0
NoLetters s = All (Fails is_ascii_alphabetic) s

abbrev NumberFirst : Option (VersionSegment × Text) → Type 0
NumberFirst none = Unit
NumberFirst (some (g, r)) = IsNumber g × NoLetters r

next_of-NumberFirst :
    (s : Text)
    → HeadFails (λ c. not (is_ascii_alphanumeric c)) s
    → NoLetters s
    → NumberFirst (next_of s)
unfolding next_of segment_of is_ascii_alphanumeric
next_of-NumberFirst [] k h = tt
next_of-NumberFirst (c ∷ s) k h =
    let digit : is_ascii_digit c ≡ true = ground arith in
    rw digit (tt, All-drop_while _ (same_class true) s h.1)

next-NumberFirst : (s : Text) → NoLetters s → NumberFirst (next s)
unfolding next
next-NumberFirst s h =
    let p = λ (c : ℕ). not (is_ascii_alphanumeric c) in
    next_of-NumberFirst (drop_while p s) (drop_while-HeadFails p s) (All-drop_while _ p s h)

segments-numbers_within :
    (f : ℕ) (s : Text) → length s < f → NoLetters s → All IsNumber (segments s)
segments-numbers_within zero s k h = absurd (omega arith)
segments-numbers_within (suc f) s k h = elim (Option-cases (next s)) [
  | inl e ↦ rw (segments-none s e) tt
  | inr (p, e) ↦
      let n = rw e at (next-NumberFirst s h) in
      rw (segments-some s e)
        (n.0, segments-numbers_within f p.1 (omega (arith, length-next s e)) n.1)
]

-- A text with no letters has number segments only.
pub segments-numbers : (s : Text) → NoLetters s → All IsNumber (segments s)
segments-numbers s h = segments-numbers_within (suc (length s)) s (omega arith) h
