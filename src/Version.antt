-- ===== src/Version.antt =====
-- src/core/version.rs: normalisation and comparison of version strings.
-- A cursor into a text is the text that is left behind it. `VersionSegments::next` and the loop
-- of `compare_segments` move such cursors; their fuel is the number of characters left.
mod Tests
pub mod Grammar
pub mod Normalize
pub mod Segments
pub mod Compare
pub mod Order
pub mod Words
pub mod Laws
pub mod Zeros
pub mod Lossy
use scriptmetakit.Chars.{Text, is_ascii_digit, is_ascii_alphanumeric, is_whitespace, ascii_lower}
use scriptmetakit.Prelude.{
  ℕ, zero, suc, ◌+◌, ◌-◌, ◌*◌, ◌<◌, ◌^◌, ◌≡◌, refl, Bool, true, false, not, ◌&&◌, ◌||◌, List, [],
  ◌∷◌, ◌++◌, map, Option, none, some, arith, ltb, ◌==◌, if◌then◌else◌, filter, take_while,
  drop_while, length, compare, Ordering, is_some,
}

-- One component behind its dot: with no digit the loop breaks, and `end` stays before the dot.
unfoldable pub component : Text → Text → Text
component [] later = []
component (d ∷ digits) later = b'.' ∷ (d ∷ digits ++ later)

-- `while index < bytes.len() && bytes[index] == b'.'`; what lies before `end` is returned.
unfoldable pub components : ℕ → Text → Text
components zero s = []
components (suc fuel) [] = []
components (suc fuel) (c ∷ s) =
    let later = components fuel (drop_while is_ascii_digit s) in
    if c == b'.' then component (take_while is_ascii_digit s) later else []

-- `while index < bytes.len()`: the first digit starts the number.
unfoldable pub scan_version : Text → Option Text
scan_version [] = none
scan_version (c ∷ s) =
    let rest = scan_version s in
    let tail = drop_while is_ascii_digit s in
    if is_ascii_digit c
    then some (c ∷ (take_while is_ascii_digit s ++ components (length tail) tail))
    else rest

unfoldable pub compact : Text → Text
compact value = filter (λ c. not (is_whitespace c)) value

unfoldable pub normalize_version_string : Text → Option Text
normalize_version_string value = scan_version (compact value)

pub data VersionOrdering : Type 0 where
  less equal greater : VersionOrdering

pub data VersionSegment : Type 0 where
  number : ℕ → VersionSegment
  text : Text → VersionSegment

abbrev pub u64_max : ℕ
u64_max = 2 ^ 64 - 1

checked : ℕ → Option ℕ
checked n = if ltb u64_max n then none else some n

-- `accumulator.checked_mul(10)?.checked_add(u64::from(byte - b'0'))`
push_digit : ℕ → ℕ → Option ℕ
push_digit acc byte = elim (checked (acc * 10)) [
  | none ↦ none
  | some tens ↦ checked (tens + (byte - b'0'))
]

fold_digits : Option ℕ → Text → Option ℕ
fold_digits acc [] = acc
fold_digits none (c ∷ s) = none
fold_digits (some acc) (c ∷ s) = fold_digits (push_digit acc c) s

pub parse_u64_lossy : Text → ℕ
parse_u64_lossy value = elim (fold_digits (some 0) value) [ none ↦ 0 | some n ↦ n ]

-- `VersionSegments::next`.
same_class : Bool → ℕ → Bool
same_class true c = is_ascii_alphanumeric c && is_ascii_digit c
same_class false c = is_ascii_alphanumeric c && not (is_ascii_digit c)

segment_of : Bool → Text → VersionSegment
segment_of true s = number (parse_u64_lossy s)
segment_of false s = text s

pub next_of : Text → Option (VersionSegment × Text)
next_of [] = none
next_of (c ∷ s) =
    let numeric = is_ascii_digit c in
    some (
      segment_of numeric (c ∷ take_while (same_class numeric) s),
      drop_while (same_class numeric) s,
    )

pub next : Text → Option (VersionSegment × Text)
next cursor = next_of (drop_while (λ c. not (is_ascii_alphanumeric c)) cursor)

-- Byte by byte, a shorter text first.
pub compare_ascii_case_insensitive : Text → Text → Ordering
compare_ascii_case_insensitive [] [] = Ordering.eq
compare_ascii_case_insensitive [] (_ ∷ _) = Ordering.lt
compare_ascii_case_insensitive (_ ∷ _) [] = Ordering.gt
compare_ascii_case_insensitive (l ∷ ls) (r ∷ rs) =
    let rest = compare_ascii_case_insensitive ls rs in
    elim (compare (ascii_lower l) (ascii_lower r)) [
      | Ordering.eq ↦ rest
      | Ordering.lt ↦ Ordering.lt
      | Ordering.gt ↦ Ordering.gt
    ]

pub compare_segment : Option VersionSegment → Option VersionSegment → Ordering
compare_segment none none = Ordering.eq
compare_segment (some (number n)) none = if n == 0 then Ordering.eq else Ordering.gt
compare_segment (some (text _)) none = Ordering.gt
compare_segment none (some (number n)) = if n == 0 then Ordering.eq else Ordering.lt
compare_segment none (some (text _)) = Ordering.lt
compare_segment (some (number l)) (some (number r)) = compare l r
compare_segment (some (text l)) (some (text r)) = compare_ascii_case_insensitive l r
compare_segment (some (number _)) (some (text _)) = Ordering.gt
compare_segment (some (text _)) (some (number _)) = Ordering.lt

-- What `next` found, and the cursor behind it; the end stays at the end.
found : Option (VersionSegment × Text) → Option VersionSegment
found none = none
found (some (s, _)) = some s

behind : Option (VersionSegment × Text) → Text
behind none = []
behind (some (_, rest)) = rest

-- The `match` of the loop: a difference is returned, the end of both texts is equality.
decide : Option VersionSegment → Option VersionSegment → Option Ordering → Option Ordering
decide l r later = elim (compare_segment l r) [
  | Ordering.eq ↦ if is_some l || is_some r then later else some Ordering.eq
  | Ordering.lt ↦ some Ordering.lt
  | Ordering.gt ↦ some Ordering.gt
]

-- The loop of `compare_segments`; `none` means that the fuel ran out.
pub compare_loop : ℕ → Text → Text → Option Ordering
compare_loop zero lhs rhs = none
compare_loop (suc fuel) lhs rhs =
    decide (found (next lhs)) (found (next rhs))
      (compare_loop fuel (behind (next lhs)) (behind (next rhs)))

pub compare_segments : Text → Text → Option Ordering
compare_segments lhs rhs = compare_loop (suc (length lhs + length rhs)) lhs rhs

pub version_ordering : Ordering → VersionOrdering
version_ordering Ordering.lt = less
version_ordering Ordering.eq = equal
version_ordering Ordering.gt = greater

pub compare_versions : Text → Text → Option VersionOrdering
compare_versions lhs rhs = elim (compare_segments lhs rhs) [
  | none ↦ none
  | some o ↦ some (version_ordering o)
]
