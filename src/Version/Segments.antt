-- ===== src/Version/Segments.antt =====
-- The list of segments that `VersionSegments` yields, and the order on such lists that
-- `compare_segments` is meant to compute.
use scriptmetakit.Chars.{Text, is_ascii_alphanumeric, is_ascii_digit}
use scriptmetakit.Prelude.{
  ℕ, zero, suc, ◌≤◌, ◌<◌, ◌≡◌, refl, ap, not, List, [], ◌∷◌, Option, none, some, arith, length,
  drop_while, length-drop_while-le, inl, inr, Option-cases, Ordering,
}
use scriptmetakit.Version.{VersionSegment, next, next_of, same_class, compare_segment}

-- Every segment of a text, in order; `fuel` bounds their number.
segments_of_next :
    (Text → List VersionSegment) → Option (VersionSegment × Text) → List VersionSegment
segments_of_next rest none = []
segments_of_next rest (some (g, s)) = g ∷ rest s

pub segments_within : ℕ → Text → List VersionSegment
segments_within zero s = []
segments_within (suc fuel) s = segments_of_next (segments_within fuel) (next s)

pub segments : Text → List VersionSegment
segments s = segments_within (suc (length s)) s

-- The first difference decides.
abbrev pub and_then : Ordering → Ordering → Ordering
and_then Ordering.eq later = later
and_then Ordering.lt later = Ordering.lt
and_then Ordering.gt later = Ordering.gt

-- Position by position, an absent segment beside a present one.
unfoldable pub compare_lists : List VersionSegment → List VersionSegment → Ordering
compare_lists [] [] = Ordering.eq
compare_lists (x ∷ xs) [] = and_then (compare_segment (some x) none) (compare_lists xs [])
compare_lists [] (y ∷ ys) = and_then (compare_segment none (some y)) (compare_lists [] ys)
compare_lists (x ∷ xs) (y ∷ ys) = and_then (compare_segment (some x) (some y)) (compare_lists xs ys)

-- How much of the text is left behind a segment.
length_behind : Option (VersionSegment × Text) → ℕ
length_behind none = 0
length_behind (some (_, r)) = suc (length r)

length_behind-next_of : (s : Text) → length_behind (next_of s) ≤ length s
unfolding length_behind next_of
length_behind-next_of [] = omega arith
length_behind-next_of (c ∷ s) =
    omega (arith, length-drop_while-le (same_class (is_ascii_digit c)) s)

length_behind-next : (s : Text) → length_behind (next s) ≤ length s
unfolding next
length_behind-next s = omega (
  arith,
  length_behind-next_of (drop_while (λ c. not (is_ascii_alphanumeric c)) s),
  length-drop_while-le (λ c. not (is_ascii_alphanumeric c)) s,
)

-- A segment is never empty.
pub length-next :
    (s : Text) {g : VersionSegment} {r : Text} → next s ≡ some (g, r) → length r < length s
unfolding length_behind
length-next s {g} {r} h = rw h at (length_behind-next s)

-- Enough fuel finds all the segments.
pub segments_within-fuel :
    (f g : ℕ) (s : Text) → length s < f → length s < g → segments_within f s ≡ segments_within g s
unfolding segments_within segments_of_next
segments_within-fuel zero g s h k = absurd (omega arith)
segments_within-fuel (suc f) zero s h k = absurd (omega arith)
segments_within-fuel (suc f) (suc g) s h k = elim (Option-cases (next s)) [
  | inl e ↦ rw e refl
  | inr (p, e) ↦ rw e (
      ap (λ l. p.0 ∷ l)
        (segments_within-fuel f g p.1 (omega (arith, length-next s e))
          (omega (arith, length-next s e))))
]

pub segments-none : (s : Text) → next s ≡ none → segments s ≡ []
unfolding segments segments_within segments_of_next
segments-none s e = rw e refl

pub segments-some :
    (s : Text) {g : VersionSegment} {r : Text} → next s ≡ some (g, r) → segments s ≡ g ∷ segments r
unfolding segments segments_within segments_of_next
segments-some s {g} {r} e = rw e (
    ap (λ l. g ∷ l)
      (segments_within-fuel (length s) (suc (length r)) r (length-next s e) (omega arith)))
