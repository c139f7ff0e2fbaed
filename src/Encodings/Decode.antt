-- ===== src/Encodings/Decode.antt =====
-- The decoding of script files: byte order marks, the guess at UTF-16 without one, UTF-8 and the
-- Japanese encodings. The scores of the latter are sums of i32, which a file of fewer than 10^8
-- characters cannot make overflow; the model keeps gains and losses apart.
pub mod RoundTrip
use scriptmetakit.Chars.{Text, strip_prefix}
use scriptmetakit.Encodings.{
  ScriptTextEncoding, utf8, utf8_bom, utf16_le, utf16_le_bom, utf16_be, utf16_be_bom, euc_jp,
  shift_jis, DecodedScriptText, Codec, codec_utf8, codec_utf16_le, codec_utf16_be, codec_euc_jp,
  codec_shift_jis, Codecs, bom,
}
use scriptmetakit.Prelude.{
  ℕ, zero, suc, ◌+◌, ◌*◌, ◌/◌, ◌%◌, Bool, true, false, not, ◌&&◌, ◌||◌, List, [], ◌∷◌, Option, none,
  some, ◌==◌, ltb, leb, if◌then◌else◌, is_some, length, drop,
}

abbrev pub utf8_mark : List ℕ
utf8_mark = 0xef ∷ 0xbb ∷ 0xbf ∷ []

pub starts_with_bytes : List ℕ → List ℕ → Bool
starts_with_bytes bytes mark = is_some (strip_prefix bytes mark)

-- The zero bytes at even and at odd positions among the first pairs.
pub zero_bytes : ℕ → List ℕ → ℕ × ℕ
zero_bytes (suc pairs) (a ∷ b ∷ bytes) =
    let later = zero_bytes pairs bytes in
    ((if a == 0 then suc later.0 else later.0), if b == 0 then suc later.1 else later.1)
zero_bytes (suc pairs) (a ∷ []) = (0, 0)
zero_bytes (suc pairs) [] = (0, 0)
zero_bytes zero bytes = (0, 0)

-- `bytes.len().min(1024) / 2`
pub sampled_pairs : List ℕ → ℕ
sampled_pairs bytes = (if ltb (length bytes) 1024 then length bytes else 1024) / 2

pub likely : ℕ → ℕ → ℕ → Bool
likely many few pairs = leb (pairs * 3) (many * 4) && leb (few * 4) pairs

is_control : ℕ → Bool
is_control c = ltb c 0x20 || (leb 0x7f c && leb c 0x9f)

gain : ℕ → ℕ
gain c =
    if c == 0x9 || c == 0xa || c == 0xd
    then 1
    else if is_control c
    then 0
    else if leb 0xff61 c && leb c 0xff9f
    then 4
    else if leb 0x3040 c && leb c 0x30ff
    then 3
    else if leb 0x4e00 c && leb c 0x9fff
    then 1
    else if ltb c 0x80
    then 1
    else 0

loss : ℕ → ℕ
loss c = if not (c == 0x9 || c == 0xa || c == 0xd) && is_control c then 20 else 0

gains : Text → ℕ
gains [] = 0
gains (c ∷ text) = gain c + gains text

losses : Text → ℕ
losses [] = 0
losses (c ∷ text) = loss c + losses text

-- The score of the first text is greater.
pub scores_more : Text → Text → Bool
scores_more a b = ltb (gains b + losses a) (gains a + losses b)

-- With the flag `cfg!(windows)`.
module _ (codecs : Codecs) (on_windows : Bool) where
  open codecs use {decode, decode_start, from_utf8, from_utf8_lossy}

  started : ScriptTextEncoding → Option Text → Option DecodedScriptText
  started script_encoding none = none
  started script_encoding (some text) = some (record { text = text; encoding = script_encoding })

  pub decode_with_encoding : Codec → List ℕ → ScriptTextEncoding → Bool → Option DecodedScriptText
  decode_with_encoding codec bytes script_encoding is_complete =
      if is_complete
      then (if (decode codec bytes).1
          then none
          else some (record { text = (decode codec bytes).0; encoding = script_encoding }))
      else started script_encoding (decode_start codec bytes)

  pub decode_utf8 : List ℕ → ScriptTextEncoding → Bool → Option DecodedScriptText
  decode_utf8 bytes script_encoding is_complete = elim (from_utf8 bytes) [
    | some text ↦ some (record { text = text; encoding = script_encoding })
    | none ↦
        if is_complete then none else decode_with_encoding codec_utf8 bytes script_encoding false
  ]

  guess_utf16 : List ℕ → Bool → Option DecodedScriptText
  guess_utf16 bytes is_complete =
      let zeroes = zero_bytes (sampled_pairs bytes) bytes in
      if likely zeroes.1 zeroes.0 (sampled_pairs bytes)
      then decode_with_encoding codec_utf16_le bytes utf16_le is_complete
      else if likely zeroes.0 zeroes.1 (sampled_pairs bytes)
      then decode_with_encoding codec_utf16_be bytes utf16_be is_complete
      else none

  pub decode_bomless_utf16_text : List ℕ → Bool → Option DecodedScriptText
  decode_bomless_utf16_text bytes is_complete =
      if ltb (length bytes) 4 || (is_complete && not (length bytes % 2 == 0))
      then none
      else guess_utf16 bytes is_complete

  preferred : DecodedScriptText → DecodedScriptText → DecodedScriptText
  preferred from_euc_jp from_shift_jis = if on_windows then from_shift_jis else from_euc_jp

  better : DecodedScriptText → DecodedScriptText → DecodedScriptText
  better from_euc_jp from_shift_jis =
      if scores_more from_shift_jis.text from_euc_jp.text
      then from_shift_jis
      else if scores_more from_euc_jp.text from_shift_jis.text
      then from_euc_jp
      else preferred from_euc_jp from_shift_jis

  choose : Option DecodedScriptText → Option DecodedScriptText → Option DecodedScriptText
  choose (some a) (some b) = some (better a b)
  choose (some a) none = some a
  choose none b = b

  pub decode_legacy_japanese_text : List ℕ → Bool → Option DecodedScriptText
  decode_legacy_japanese_text bytes is_complete =
      choose (decode_with_encoding codec_euc_jp bytes euc_jp is_complete)
        (decode_with_encoding codec_shift_jis bytes shift_jis is_complete)

  or_else : Option DecodedScriptText → Option DecodedScriptText → Option DecodedScriptText
  or_else (some decoded) later = some decoded
  or_else none later = later

  -- Without a byte order mark.
  pub decode_unmarked : List ℕ → Bool → Option DecodedScriptText
  decode_unmarked bytes is_complete = or_else (decode_bomless_utf16_text bytes is_complete) (
      or_else (decode_utf8 bytes utf8 is_complete) (
        or_else (decode_legacy_japanese_text bytes is_complete) (
          or_else (decode_with_encoding codec_utf16_le bytes utf16_le is_complete)
            (decode_with_encoding codec_utf16_be bytes utf16_be is_complete))))

  decode_behind_utf8_mark : List ℕ → Bool → Option DecodedScriptText
  decode_behind_utf8_mark bytes is_complete =
      if starts_with_bytes bytes (bom false)
      then decode_with_encoding codec_utf16_le (drop 2 bytes) utf16_le_bom is_complete
      else if starts_with_bytes bytes (bom true)
      then decode_with_encoding codec_utf16_be (drop 2 bytes) utf16_be_bom is_complete
      else decode_unmarked bytes is_complete

  pub decode_script_text_with_encoding_impl : List ℕ → Bool → Option DecodedScriptText
  decode_script_text_with_encoding_impl bytes is_complete =
      or_else
        (if starts_with_bytes bytes utf8_mark
          then decode_utf8 (drop 3 bytes) utf8_bom is_complete
          else none)
        (decode_behind_utf8_mark bytes is_complete)

  pub decode_script_text_with_encoding : List ℕ → Option DecodedScriptText
  decode_script_text_with_encoding bytes = decode_script_text_with_encoding_impl bytes true

  text_of : Option DecodedScriptText → Option Text
  text_of none = none
  text_of (some decoded) = some decoded.text

  first_text : Option Text → Option Text → Option Text
  first_text (some text) later = some text
  first_text none later = later

  strict_unmarked : List ℕ → Option Text
  strict_unmarked bytes =
      if starts_with_bytes bytes (bom false) || starts_with_bytes bytes (bom true)
      then text_of (decode_script_text_with_encoding bytes)
      else first_text (text_of (decode_bomless_utf16_text bytes true))
          (first_text (from_utf8 bytes) (text_of (decode_script_text_with_encoding bytes)))

  pub decode_script_text_strict : List ℕ → Option Text
  decode_script_text_strict bytes =
      first_text (if starts_with_bytes bytes utf8_mark then from_utf8 (drop 3 bytes) else none)
        (strict_unmarked bytes)

  pub text_or_lossy : Option Text → List ℕ → Text
  text_or_lossy (some text) bytes = text
  text_or_lossy none bytes = from_utf8_lossy bytes

  pub decode_script_text : List ℕ → Text
  decode_script_text bytes = text_or_lossy (decode_script_text_strict bytes) bytes

  pub decode_script_text_prefix : List ℕ → Bool → Text
  decode_script_text_prefix bytes is_complete =
      if is_complete
      then decode_script_text bytes
      else text_or_lossy (text_of (decode_script_text_with_encoding_impl bytes false)) bytes
