-- ===== src/Version/Lossy.antt =====
-- `parse_u64_lossy` against the decimal value of its digits.
use scriptmetakit.Chars.{Text}
use scriptmetakit.Prelude.{
  ℕ, ◌+◌, ◌-◌, ◌*◌, ◌≤◌, ◌<◌, ◌≡◌, refl, sym, [], ◌∷◌, none, some, arith, if◌then◌else◌, ltb,
  ltb→lt, inl, inr, Bool-cases,
}
use scriptmetakit.Version.{parse_u64_lossy, fold_digits, push_digit, checked, u64_max}

-- The number that decimal digits stand for, behind those already read.
abbrev decimal_from : ℕ → Text → ℕ
decimal_from acc [] = acc
decimal_from acc (c ∷ s) = decimal_from (acc * 10 + (c - b'0')) s

abbrev pub decimal : Text → ℕ
decimal = decimal_from 0

decimal_from-le : (acc : ℕ) (s : Text) → acc ≤ decimal_from acc s
decimal_from-le acc [] = omega arith
decimal_from-le acc (c ∷ s) = omega (arith, decimal_from-le (acc * 10 + (c - b'0')) s)

fold_digits-none : (s : Text) → fold_digits none s ≡ none
unfolding fold_digits
fold_digits-none [] = refl
fold_digits-none (c ∷ s) = refl

checked-some : (n : ℕ) → n ≤ u64_max → checked n ≡ some n
unfolding checked
checked-some n h = ground arith

checked-none : (n : ℕ) → u64_max < n → checked n ≡ none
unfolding checked
checked-none n h = ground arith

-- The two checks of one digit are one check of the sum.
push_digit-checked : (acc c : ℕ) → push_digit acc c ≡ checked (acc * 10 + (c - b'0'))
unfolding push_digit checked
push_digit-checked acc c = ground arith

fold_digits-checked :
    (acc : ℕ) (s : Text) → fold_digits (checked acc) s ≡ checked (decimal_from acc s)
unfolding fold_digits
fold_digits-checked acc [] = refl
fold_digits-checked acc (c ∷ s) = elim (Bool-cases (ltb u64_max acc)) [
  | inl over ↦
      rw (checked-none acc (ltb→lt u64_max acc over))
        (sym (checked-none _ (omega (arith, ltb→lt u64_max acc over, decimal_from-le acc (c ∷ s)))))
  | inr fits ↦
      rw (checked-some acc (ground arith), push_digit-checked acc c)
        (fold_digits-checked (acc * 10 + (c - b'0')) s)
]

-- The number is the decimal value if that fits 64 bits, and 0 if it does not.
pub parse_u64_lossy-decimal :
    (value : Text)
    → parse_u64_lossy value ≡ (if ltb u64_max (decimal value) then 0 else decimal value)
unfolding parse_u64_lossy checked
parse_u64_lossy-decimal value = ground (arith, fold_digits-checked 0 value)
