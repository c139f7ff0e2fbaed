-- ===== src/Encodings/Decode/RoundTrip.antt =====
-- What is written in an encoding is read in it again.
mod Tests
use scriptmetakit.Chars.{Text, strip_prefix}
use scriptmetakit.Encodings.Decode.{
  utf8_mark, starts_with_bytes, zero_bytes, sampled_pairs, likely, decode_with_encoding,
  decode_utf8, guess_utf16, decode_bomless_utf16_text, or_else, decode_unmarked,
  decode_behind_utf8_mark, decode_script_text_with_encoding_impl, decode_script_text_with_encoding,
  text_of, first_text, strict_unmarked, decode_script_text_strict,
}
use scriptmetakit.Encodings.Utf16.{
  big_endian_bytes, little_endian_bytes, encode_utf16-big_endian, encode_utf16-little_endian,
}
use scriptmetakit.Encodings.{
  ScriptTextEncoding, utf8, utf8_bom, utf16_le, utf16_le_bom, utf16_be, utf16_be_bom, euc_jp,
  shift_jis, DecodedScriptText, codec_utf16_le, codec_utf16_be, Codecs, bom, as_bytes, encode_utf16,
  encode_script_text,
}
use scriptmetakit.Prelude.{
  ℕ, zero, suc, ◌+◌, ◌*◌, ◌/◌, ◌%◌, ◌≤◌, Bool, true, false, not, ◌&&◌, ◌||◌, List, [], ◌∷◌, ◌++◌,
  Option, none, some, ◌==◌, ltb, leb, if◌then◌else◌, is_some, length, drop, any, ◌≡◌, refl, sym, ap,
  ◌∙◌, Bool-cases, inl, inr, arith,
}

abbrev pub is_zero : ℕ → Bool
is_zero b = b == 0

no_zero_bytes :
    (pairs : ℕ) (bytes : List ℕ) → any is_zero bytes ≡ false → zero_bytes pairs bytes ≡ (0, 0)
unfolding zero_bytes
no_zero_bytes zero bytes h = refl
no_zero_bytes (suc pairs) [] h = refl
no_zero_bytes (suc pairs) (a ∷ []) h = refl
no_zero_bytes (suc pairs) (a ∷ b ∷ bytes) h =
    let first : is_zero a ≡ false = ground (arith, h) in
    let second : is_zero b ≡ false = ground (arith, h) in
    rw (no_zero_bytes pairs bytes (ground (arith, h)), zero_bytes) (rw first (rw second refl))

pairs_of : (bytes : List ℕ) → ltb (length bytes) 4 ≡ false → 2 ≤ sampled_pairs bytes
unfolding sampled_pairs
pairs_of bytes h = ground (arith, h)

unlikely : (pairs : ℕ) → 2 ≤ pairs → likely 0 0 pairs ≡ false
unfolding likely
unlikely pairs h = ground (arith, h)

module _ (codecs : Codecs) (on_windows : Bool) where
  open codecs use {decode, from_utf8, from_utf8_lossy}

  guess_utf16-none :
      (bytes : List ℕ)
      → any is_zero bytes ≡ false
      → ltb (length bytes) 4 ≡ false
      → guess_utf16 codecs on_windows bytes true ≡ none
  unfolding guess_utf16
  guess_utf16-none bytes h k =
      rw (no_zero_bytes (sampled_pairs bytes) bytes h, guess_utf16)
        (rw (unlikely (sampled_pairs bytes) (pairs_of bytes k)) refl)

  decode_bomless_utf16_text-none :
      (bytes : List ℕ)
      → any is_zero bytes ≡ false
      → decode_bomless_utf16_text codecs on_windows bytes true ≡ none
  unfolding decode_bomless_utf16_text
  decode_bomless_utf16_text-none bytes h = elim (Bool-cases (ltb (length bytes) 4)) [
    | inl e ↦ rw (e, decode_bomless_utf16_text) refl
    | inr e ↦ elim (Bool-cases (length bytes % 2 == 0)) [
      | inr k ↦ rw (e, k, decode_bomless_utf16_text) refl
      | inl k ↦ rw (e, k, decode_bomless_utf16_text) (guess_utf16-none bytes h e)
    ]
  ]

  -- What makes a text readable in an encoding. The standard library reads the UTF-8 that it
  -- writes, and the crate the UTF-16 of RFC 2781; without a mark the bytes must not begin like
  -- one, nor hold a zero.
  abbrev pub IsReadable : Text → ScriptTextEncoding → Type 0
  IsReadable text utf8 =
      (from_utf8 (as_bytes text) ≡ some text)
      × (any is_zero (as_bytes text) ≡ false)
      × (starts_with_bytes (as_bytes text) utf8_mark ≡ false)
      × (starts_with_bytes (as_bytes text) (bom false) ≡ false)
      × (starts_with_bytes (as_bytes text) (bom true) ≡ false)
  IsReadable text utf8_bom = from_utf8 (as_bytes text) ≡ some text
  IsReadable text utf16_le_bom = decode codec_utf16_le (little_endian_bytes text) ≡ (text, false)
  IsReadable text utf16_be_bom = decode codec_utf16_be (big_endian_bytes text) ≡ (text, false)
  IsReadable text utf16_le = ⊥
  IsReadable text utf16_be = ⊥
  IsReadable text euc_jp = ⊥
  IsReadable text shift_jis = ⊥

  -- The bytes are read as this text in this encoding, and as this text where only the text is asked for.
  abbrev pub IsReadAs : Text → ScriptTextEncoding → List ℕ → Type 0
  IsReadAs text encoding bytes =
      (decode_script_text_with_encoding codecs on_windows bytes
        ≡ some (record { text = text; encoding = encoding }))
      × (decode_script_text_strict codecs on_windows bytes ≡ some text)

  utf8-IsReadAs : (text : Text) → IsReadable text utf8 → IsReadAs text utf8 (as_bytes text)
  unfolding decode_script_text_with_encoding decode_script_text_with_encoding_impl
      decode_behind_utf8_mark decode_unmarked or_else decode_utf8 decode_script_text_strict
      strict_unmarked first_text text_of
  utf8-IsReadAs text (valid, no_zero, unmarked, not_le, not_be) =
      let guess = decode_bomless_utf16_text-none (as_bytes text) no_zero in
      (
        rw (unmarked, decode_script_text_with_encoding)
            (rw not_le (rw not_be (rw guess (rw (valid, or_else, decode_utf8) refl)))),
        rw (unmarked, decode_script_text_strict)
            (rw not_le (rw not_be (rw guess (rw (valid, first_text) refl)))),
      )

  -- A text in UTF-8, with a byte order mark or without one, or in UTF-16 with one.
  abbrev pub serialised : Text → ScriptTextEncoding → List ℕ
  serialised text utf8_bom = 0xef ∷ 0xbb ∷ 0xbf ∷ as_bytes text
  serialised text utf16_le_bom = 0xff ∷ 0xfe ∷ little_endian_bytes text
  serialised text utf16_be_bom = 0xfe ∷ 0xff ∷ big_endian_bytes text
  serialised text utf8 = as_bytes text
  serialised text utf16_le = little_endian_bytes text
  serialised text utf16_be = big_endian_bytes text
  serialised text euc_jp = []
  serialised text shift_jis = []

  -- Let a decoder read the bytes of a text in UTF-8, with a byte order mark or without one, or in
  -- UTF-16 with one, and let UTF-8 without a mark hold no zero byte and not begin like a mark.
  -- Then the text is written as the bytes of that encoding behind its mark, and these are read
  -- again as the same text in the same encoding.
  pub decode_script_text-encode_script_text :
      (text : Text) (encoding : ScriptTextEncoding)
      → IsReadable text encoding
      → (encode_script_text codecs text encoding ≡ some (serialised text encoding))
        × IsReadAs text encoding (serialised text encoding)
  unfolding encode_script_text decode_script_text_with_encoding
      decode_script_text_with_encoding_impl decode_behind_utf8_mark decode_with_encoding
      starts_with_bytes strip_prefix or_else decode_utf8 decode_script_text_strict strict_unmarked
      first_text text_of bom
  decode_script_text-encode_script_text text utf8 h = let r = utf8-IsReadAs text h in (refl, r)
  decode_script_text-encode_script_text text utf8_bom h =
      (refl, (rw (h, decode_utf8) refl, rw h refl))
  decode_script_text-encode_script_text text utf16_le_bom h = (
    ap some (encode_utf16-little_endian text),
    (rw (h, decode_with_encoding) refl, rw (h, decode_with_encoding) refl),
  )
  decode_script_text-encode_script_text text utf16_be_bom h = (
    ap some (encode_utf16-big_endian text),
    (rw (h, decode_with_encoding) refl, rw (h, decode_with_encoding) refl),
  )
  decode_script_text-encode_script_text text utf16_le h = absurd h
  decode_script_text-encode_script_text text utf16_be h = absurd h
  decode_script_text-encode_script_text text euc_jp h = absurd h
  decode_script_text-encode_script_text text shift_jis h = absurd h
