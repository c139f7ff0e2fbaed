-- ===== src/Retry/Status.antt =====
-- The status in a message of src/resolver/retry.rs.
use scriptmetakit.Chars.{Text, codes, is_ascii_digit, is_empty, strip_prefix}
use scriptmetakit.Prelude.{
  ℕ, true, false, [], ◌∷◌, ◌++◌, none, some, ltb, ◌==◌, if◌then◌else◌, is_some, take_while,
  take_while-append, HeadFails, All, Holds, ◌≡◌, refl, sym, ap, ◌∙◌, ==_iff, Bool-cases, inl, inr,
}
use scriptmetakit.Retry.{
  behind_marker, before_marker, second_part, parse_digits, leading_number, u16_max,
  http_status_from_error_message,
}
use scriptmetakit.Version.Lossy.{decimal}

strip_prefix-digit :
    (c m : ℕ) (s marker : Text)
    → is_ascii_digit c ≡ true
    → is_ascii_digit m ≡ false
    → strip_prefix (c ∷ s) (m ∷ marker) ≡ none
unfolding strip_prefix
strip_prefix-digit c m s marker h k = elim (Bool-cases (c == m)) [
  | inl e ↦ let q = sym h ∙ ap is_ascii_digit ((==_iff c m).0 e) ∙ k in cc
  | inr e ↦ rw (e, strip_prefix) refl
]

-- The next marker, which begins with no digit, does not cut a number.
before_marker-digits :
    (m : ℕ) (marker s : Text)
    → is_ascii_digit m ≡ false
    → take_while is_ascii_digit (before_marker (m ∷ marker) s) ≡ take_while is_ascii_digit s
unfolding before_marker
before_marker-digits m marker [] k = refl
before_marker-digits m marker (c ∷ s) k = elim (Bool-cases (is_ascii_digit c)) [
  | inl e ↦
      rw (strip_prefix-digit c m s marker e k, before_marker)
        (rw e (ap (λ l. c ∷ l) (before_marker-digits m marker s k)))
  | inr e ↦ elim (Bool-cases (is_some (strip_prefix (c ∷ s) (m ∷ marker)))) [
    | inl f ↦ rw (f, before_marker) (rw e refl)
    | inr f ↦ rw (f, before_marker) (rw e refl)
  ]
]

front : (t : Text) → behind_marker (codes "http_status=") (codes "http_status=" ++ t) ≡ some t
unfolding behind_marker strip_prefix
front t = refl

marker_digit : is_ascii_digit b'h' ≡ false
unfolding is_ascii_digit
marker_digit = refl

-- A message that begins with the marker, some digits and no further digit has the decimal value of
-- the digits as its status, and no status if that value does not fit 16 bits.
pub http_status_from_error_message-decimal :
    (digits rest : Text)
    → is_empty digits ≡ false
    → All (Holds is_ascii_digit) digits
    → HeadFails is_ascii_digit rest
    → http_status_from_error_message (codes "http_status=" ++ (digits ++ rest))
      ≡ (if ltb u16_max (decimal digits) then none else some (decimal digits))
unfolding http_status_from_error_message second_part leading_number parse_digits
http_status_from_error_message-decimal digits rest e h k =
    rw (front (digits ++ rest), second_part)
      (rw (before_marker-digits b'h' (codes "ttp_status=") (digits ++ rest) marker_digit)
        (rw (take_while-append is_ascii_digit digits rest h k) (rw (e, parse_digits) refl)))
