-- ===== src/Encodings.antt =====
-- src/core/text.rs: the encodings of script files. The crate encoding_rs is a parameter, and so is the
-- check for UTF-8 of Rust's standard library.
pub mod Utf16
pub mod Decode
use scriptmetakit.Chars.{Text}
use scriptmetakit.Prelude.{
  ℕ, ◌+◌, ◌-◌, ◌*◌, ◌/◌, ◌%◌, Bool, true, false, not, ◌&&◌, List, [], ◌∷◌, ◌++◌, Option, none, some,
  ltb, if◌then◌else◌,
}

pub data ScriptTextEncoding : Type 0 where
  utf8 utf8_bom utf16_le utf16_le_bom utf16_be utf16_be_bom euc_jp shift_jis : ScriptTextEncoding

pub record DecodedScriptText : Type 0 where
  pub text : Text
  pub encoding : ScriptTextEncoding

-- The encodings of the crate that the source names.
pub data Codec : Type 0 where
  codec_utf8 codec_utf16_le codec_utf16_be codec_euc_jp codec_shift_jis : Codec

-- `Encoding::decode` and `Encoding::encode`, with their flags for errors; a decoder without BOM
-- handling that is fed the whole input, if it reads all of it without an error; `str::from_utf8` and
-- `String::from_utf8_lossy`.
pub record Codecs : Type 0 where
  pub decode : Codec → List ℕ → Text × Bool
  pub encode : Codec → Text → List ℕ × Bool
  pub decode_start : Codec → List ℕ → Option Text
  pub from_utf8 : List ℕ → Option Text
  pub from_utf8_lossy : List ℕ → Text

-- `str::as_bytes`: the bytes of one scalar value, and of a text.
unfoldable pub utf8_char : ℕ → List ℕ
utf8_char c =
    if ltb c 0x80
    then c ∷ []
    else if ltb c 0x800
    then (0xc0 + c / 64) ∷ (0x80 + c % 64) ∷ []
    else if ltb c 0x10000
    then (0xe0 + c / 4096) ∷ (0x80 + c / 64 % 64) ∷ (0x80 + c % 64) ∷ []
    else (0xf0 + c / 262144) ∷ (0x80 + c / 4096 % 64) ∷ (0x80 + c / 64 % 64) ∷ (0x80 + c % 64) ∷ []

unfoldable pub as_bytes : Text → List ℕ
as_bytes [] = []
as_bytes (c ∷ text) = utf8_char c ++ as_bytes text

-- `str::encode_utf16`: one unit, or a pair of surrogates.
unfoldable pub utf16_char : ℕ → List ℕ
utf16_char c =
    if ltb c 0x10000
    then c ∷ []
    else (0xd800 + (c - 0x10000) / 0x400) ∷ (0xdc00 + (c - 0x10000) % 0x400) ∷ []

unfoldable pub utf16_units : Text → List ℕ
utf16_units [] = []
utf16_units (c ∷ text) = utf16_char c ++ utf16_units text

-- `to_be_bytes` and `to_le_bytes`.
unfoldable pub unit_bytes : Bool → List ℕ → List ℕ
unit_bytes big_endian [] = []
unit_bytes big_endian (unit ∷ units) =
    let later = unit_bytes big_endian units in
    if big_endian then (unit / 256) ∷ (unit % 256) ∷ later else (unit % 256) ∷ (unit / 256) ∷ later

unfoldable pub bom : Bool → List ℕ
bom big_endian = if big_endian then 0xfe ∷ 0xff ∷ [] else 0xff ∷ 0xfe ∷ []

pub encode_utf16 : Text → Bool → Bool → List ℕ
encode_utf16 text big_endian with_bom =
    (if with_bom then bom big_endian else []) ++ unit_bytes big_endian (utf16_units text)

module _ (codecs : Codecs) where
  open codecs use {encode}

  encode_with_encoding : Codec → Text → Option (List ℕ)
  encode_with_encoding codec text =
      if (encode codec text).1 then none else some (encode codec text).0

  pub encode_script_text : Text → ScriptTextEncoding → Option (List ℕ)
  encode_script_text text utf8 = some (as_bytes text)
  encode_script_text text utf8_bom = some (0xef ∷ 0xbb ∷ 0xbf ∷ as_bytes text)
  encode_script_text text utf16_le = some (encode_utf16 text false false)
  encode_script_text text utf16_le_bom = some (encode_utf16 text false true)
  encode_script_text text utf16_be = some (encode_utf16 text true false)
  encode_script_text text utf16_be_bom = some (encode_utf16 text true true)
  encode_script_text text euc_jp = encode_with_encoding codec_euc_jp text
  encode_script_text text shift_jis = encode_with_encoding codec_shift_jis text
