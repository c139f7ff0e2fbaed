-- ===== src/Version/Order.antt =====
-- The laws of the order on lists of segments.
use scriptmetakit.Chars.{Text, ascii_lower}
use scriptmetakit.Prelude.{
  ℕ, ◌≡◌, refl, Bool, true, false, List, [], ◌∷◌, ◌++◌, Option, none, some, arith, All, compare,
  Ordering, map, ap,
}
use scriptmetakit.Version.Segments.{compare_lists, and_then}
use scriptmetakit.Version.{
  VersionSegment, number, text, compare_segment, compare_ascii_case_insensitive,
}

abbrev pub flip : Ordering → Ordering
flip Ordering.lt = Ordering.gt
flip Ordering.eq = Ordering.eq
flip Ordering.gt = Ordering.lt

compare-flip : (a b : ℕ) → compare b a ≡ flip (compare a b)
compare-flip a b = ground arith

compare_ascii-flip :
    (l r : Text) → compare_ascii_case_insensitive r l ≡ flip (compare_ascii_case_insensitive l r)
unfolding compare_ascii_case_insensitive
compare_ascii-flip [] [] = refl
compare_ascii-flip [] (r ∷ rs) = refl
compare_ascii-flip (l ∷ ls) [] = refl
compare_ascii-flip (l ∷ ls) (r ∷ rs) =
    ground (arith, compare_ascii-flip ls rs, compare-flip (ascii_lower l) (ascii_lower r))

compare_segment-flip :
    (l r : Option VersionSegment) → compare_segment r l ≡ flip (compare_segment l r)
unfolding compare_segment
compare_segment-flip none none = refl
compare_segment-flip (some (number n)) none = ground arith
compare_segment-flip (some (text _)) none = refl
compare_segment-flip none (some (number n)) = ground arith
compare_segment-flip none (some (text _)) = refl
compare_segment-flip (some (number l)) (some (number r)) = compare-flip l r
compare_segment-flip (some (text l)) (some (text r)) = compare_ascii-flip l r
compare_segment-flip (some (number _)) (some (text _)) = refl
compare_segment-flip (some (text _)) (some (number _)) = refl

and_then-flip : (o p x y : Ordering) → p ≡ flip o → y ≡ flip x → and_then p y ≡ flip (and_then o x)
and_then-flip o p x y h k = ground arith

pub compare_lists-flip :
    (xs ys : List VersionSegment) → compare_lists ys xs ≡ flip (compare_lists xs ys)
unfolding compare_lists
compare_lists-flip [] [] = refl
compare_lists-flip (x ∷ xs) [] =
    and_then-flip _ _ _ _ (compare_segment-flip (some x) none) (compare_lists-flip xs [])
compare_lists-flip [] (y ∷ ys) =
    and_then-flip _ _ _ _ (compare_segment-flip none (some y)) (compare_lists-flip [] ys)
compare_lists-flip (x ∷ xs) (y ∷ ys) =
    and_then-flip _ _ _ _ (compare_segment-flip (some x) (some y)) (compare_lists-flip xs ys)

compare_ascii_refl : (l : Text) → compare_ascii_case_insensitive l l ≡ Ordering.eq
unfolding compare_ascii_case_insensitive
compare_ascii_refl [] = refl
compare_ascii_refl (c ∷ l) = ground (arith, compare_ascii_refl l)

compare_segment_refl : (s : VersionSegment) → compare_segment (some s) (some s) ≡ Ordering.eq
unfolding compare_segment
compare_segment_refl (number n) = ground arith
compare_segment_refl (text t) = compare_ascii_refl t

-- A common beginning does not matter.
pub compare_lists-append :
    (xs ys zs : List VersionSegment) → compare_lists (xs ++ ys) (xs ++ zs) ≡ compare_lists ys zs
unfolding compare_lists
compare_lists-append [] ys zs = refl
compare_lists-append (x ∷ xs) ys zs = rw (compare_segment_refl x) (compare_lists-append xs ys zs)

pub compare_lists_refl : (xs : List VersionSegment) → compare_lists xs xs ≡ Ordering.eq
unfolding compare_lists
compare_lists_refl [] = refl
compare_lists_refl (x ∷ xs) = rw (compare_segment_refl x) (compare_lists_refl xs)

abbrev pub IsNumber : VersionSegment → Type 0
IsNumber (number n) = Unit
IsNumber (text t) = ⊥

abbrev pub not_after : Ordering → Bool
not_after Ordering.gt = false
not_after Ordering.lt = true
not_after Ordering.eq = true

abbrev pub LeTrans : List VersionSegment → List VersionSegment → List VersionSegment → Type 0
LeTrans xs ys zs =
    not_after (compare_lists xs ys) ≡ true
    → not_after (compare_lists ys zs) ≡ true
    → not_after (compare_lists xs zs) ≡ true

abbrev LeTransNumbers : List ℕ → List ℕ → List ℕ → Type 0
LeTransNumbers a b c = LeTrans (map number a) (map number b) (map number c)

numbers_trans : (a b c : List ℕ) → LeTransNumbers a b c
unfolding compare_lists compare_segment
numbers_trans [] [] c h k = k
numbers_trans [] (y ∷ b) [] h k = refl
numbers_trans [] (y ∷ b) (z ∷ c) h k = ground (arith, numbers_trans [] b c)
numbers_trans (x ∷ a) [] [] h k = h
numbers_trans (x ∷ a) [] (z ∷ c) h k = ground (arith, numbers_trans a [] c)
numbers_trans (x ∷ a) (y ∷ b) [] h k = ground (arith, numbers_trans a b [])
numbers_trans (x ∷ a) (y ∷ b) (z ∷ c) h k = ground (arith, numbers_trans a b c)

numbers_of : (xs : List VersionSegment) → All IsNumber xs → (a : List ℕ) × (xs ≡ map number a)
numbers_of [] h = ([], refl)
numbers_of (number n ∷ xs) h = let r = numbers_of xs h.1 in (n ∷ r.0, ap (λ l. number n ∷ l) r.1)
numbers_of (text t ∷ xs) h = absurd h.0

-- On numbers alone the order is transitive.
pub compare_lists_trans :
    (xs ys zs : List VersionSegment)
    → All IsNumber xs
    → All IsNumber ys
    → All IsNumber zs
    → LeTrans xs ys zs
compare_lists_trans xs ys zs hx hy hz =
    let a = numbers_of xs hx in
    let b = numbers_of ys hy in
    let c = numbers_of zs hz in rw (a.1, b.1, c.1) (numbers_trans a.0 b.0 c.0)
