-- ===== src/Encodings/Decode/RoundTrip/Tests.antt =====
-- A text in big endian UTF-16, with a character that takes a pair of surrogates. The stand-in for the
-- crate reads UTF-16; what it does for the other encodings is not used.
use scriptmetakit.Chars.{Text, codes}
use scriptmetakit.Encodings.Decode.RoundTrip.{
  IsReadAs, serialised, decode_script_text-encode_script_text,
}
use scriptmetakit.Encodings.{
  Codec, codec_utf16_le, codec_utf16_be, Codecs, utf16_be_bom, encode_script_text,
}
use scriptmetakit.Prelude.{
  ℕ, ◌+◌, ◌-◌, ◌*◌, Bool, true, false, List, [], ◌∷◌, ◌++◌, some, ltb, leb, ◌&&◌, if◌then◌else◌,
  ◌≡◌, refl,
}

abbrev units : Bool → List ℕ → List ℕ
units big_endian [] = []
units big_endian (a ∷ []) = a ∷ []
units big_endian (a ∷ b ∷ bytes) =
    (if big_endian then a * 256 + b else b * 256 + a) ∷ units big_endian bytes

-- A unit in front of the scalar values behind it: the upper half of a pair takes the lower one.
abbrev joined : ℕ → Text → Text
joined u [] = u ∷ []
joined u (v ∷ text) =
    if leb 0xd800 u && ltb u 0xdc00
    then (0x10000 + (u - 0xd800) * 0x400 + (v - 0xdc00)) ∷ text
    else u ∷ v ∷ text

abbrev scalars : List ℕ → Text
scalars [] = []
scalars (u ∷ units) = joined u (scalars units)

abbrev decode_units : Codec → List ℕ → Text × Bool
decode_units codec bytes = elim codec [
  | codec_utf16_be ↦ (scalars (units true bytes), false)
  | codec_utf16_le ↦ (scalars (units false bytes), false)
  | _ ↦ ([], true)
]

abbrev utf16_crate : Codecs
utf16_crate = record {
  decode = decode_units;
  encode = λ codec text. ([], true);
  decode_start = λ codec bytes. some (decode_units codec bytes).0;
  from_utf8 = λ bytes. some bytes;
  from_utf8_lossy = λ bytes. bytes;
}

abbrev smile : Text
smile = codes "v=1" ++ 0x1f600 ∷ []

decode_script_text-encode_script_text_example :
    (encode_script_text utf16_crate smile utf16_be_bom
      ≡ some (serialised utf16_crate false smile utf16_be_bom))
    × IsReadAs utf16_crate false smile utf16_be_bom
        (serialised utf16_crate false smile utf16_be_bom)
decode_script_text-encode_script_text_example =
    decode_script_text-encode_script_text utf16_crate false smile utf16_be_bom refl
