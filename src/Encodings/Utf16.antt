-- ===== src/Encodings/Utf16.antt =====
-- UTF-16 as RFC 2781 serialises it, byte by byte, and `encode_utf16` of src/core/text.rs.
use scriptmetakit.Chars.{Text}
use scriptmetakit.Encodings.{utf16_char, utf16_units, unit_bytes, bom, encode_utf16}
use scriptmetakit.Prelude.{
  ℕ, ◌+◌, ◌-◌, ◌/◌, ◌%◌, true, false, List, [], ◌∷◌, ◌++◌, ltb, if◌then◌else◌, ◌≡◌, refl, ap, ◌∙◌,
  arith, Bool-cases, inl, inr,
}

-- A scalar value of at most 16 bits is two bytes. Of a larger one, less 0x10000, the ten upper bits
-- go into a unit that begins with the bits 110110, and the ten lower bits into one with 110111.
abbrev high_bytes : ℕ → List ℕ
high_bytes v = (0xd8 + v / 262144) ∷ (v / 1024 % 256) ∷ (0xdc + v / 256 % 4) ∷ (v % 256) ∷ []

abbrev low_bytes : ℕ → List ℕ
low_bytes v = (v / 1024 % 256) ∷ (0xd8 + v / 262144) ∷ (v % 256) ∷ (0xdc + v / 256 % 4) ∷ []

abbrev big_endian_char : ℕ → List ℕ
big_endian_char c = if ltb c 65536 then (c / 256) ∷ (c % 256) ∷ [] else high_bytes (c - 65536)

abbrev little_endian_char : ℕ → List ℕ
little_endian_char c = if ltb c 65536 then (c % 256) ∷ (c / 256) ∷ [] else low_bytes (c - 65536)

abbrev pub big_endian_bytes : Text → List ℕ
big_endian_bytes [] = []
big_endian_bytes (c ∷ text) = big_endian_char c ++ big_endian_bytes text

abbrev pub little_endian_bytes : Text → List ℕ
little_endian_bytes [] = []
little_endian_bytes (c ∷ text) = little_endian_char c ++ little_endian_bytes text

upper_first : (v : ℕ) → (0xd800 + v / 0x400) / 256 ≡ 0xd8 + v / 262144
upper_first v = omega arith

upper_second : (v : ℕ) → (0xd800 + v / 0x400) % 256 ≡ v / 1024 % 256
upper_second v = omega arith

lower_first : (v : ℕ) → (0xdc00 + v % 0x400) / 256 ≡ 0xdc + v / 256 % 4
lower_first v = omega arith

lower_second : (v : ℕ) → (0xdc00 + v % 0x400) % 256 ≡ v % 256
lower_second v = omega arith

big_endian-char :
    (c : ℕ) (units : List ℕ)
    → unit_bytes true (utf16_char c ++ units) ≡ big_endian_char c ++ unit_bytes true units
unfolding utf16_char unit_bytes
big_endian-char c units = elim (Bool-cases (ltb c 0x10000)) [
  | inl e ↦ rw (e, utf16_char) refl
  | inr e ↦
      let v = c - 65536 in
      rw (e, utf16_char)
        (rw (upper_first v) (rw (upper_second v) (rw (lower_first v) (rw (lower_second v) refl))))
]

little_endian-char :
    (c : ℕ) (units : List ℕ)
    → unit_bytes false (utf16_char c ++ units) ≡ little_endian_char c ++ unit_bytes false units
unfolding utf16_char unit_bytes
little_endian-char c units = elim (Bool-cases (ltb c 0x10000)) [
  | inl e ↦ rw (e, utf16_char) refl
  | inr e ↦
      let v = c - 65536 in
      rw (e, utf16_char)
        (rw (upper_first v) (rw (upper_second v) (rw (lower_first v) (rw (lower_second v) refl))))
]

unit_bytes-big_endian : (text : Text) → unit_bytes true (utf16_units text) ≡ big_endian_bytes text
unfolding utf16_units unit_bytes
unit_bytes-big_endian [] = refl
unit_bytes-big_endian (c ∷ text) =
    big_endian-char c (utf16_units text)
    ∙ ap (λ l. big_endian_char c ++ l) (unit_bytes-big_endian text)

unit_bytes-little_endian :
    (text : Text) → unit_bytes false (utf16_units text) ≡ little_endian_bytes text
unfolding utf16_units unit_bytes
unit_bytes-little_endian [] = refl
unit_bytes-little_endian (c ∷ text) =
    little_endian-char c (utf16_units text)
    ∙ ap (λ l. little_endian_char c ++ l) (unit_bytes-little_endian text)

pub encode_utf16-big_endian :
    (text : Text) → encode_utf16 text true true ≡ 0xfe ∷ 0xff ∷ big_endian_bytes text
unfolding encode_utf16 bom
encode_utf16-big_endian text = ap (λ l. 0xfe ∷ 0xff ∷ l) (unit_bytes-big_endian text)

pub encode_utf16-little_endian :
    (text : Text) → encode_utf16 text false true ≡ 0xff ∷ 0xfe ∷ little_endian_bytes text
unfolding encode_utf16 bom
encode_utf16-little_endian text = ap (λ l. 0xff ∷ 0xfe ∷ l) (unit_bytes-little_endian text)
