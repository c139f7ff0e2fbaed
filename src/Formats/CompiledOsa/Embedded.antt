-- ===== src/Formats/CompiledOsa/Embedded.antt =====
-- The text that is read out of a compiled script stands in it.
use scriptmetakit.Chars.{Text}
use scriptmetakit.Formats.CompiledOsa.{
  script_meta_begin, script_meta_end, Utf16Endian, little, big, Decoders, is_ascii, utf16_marker,
  decode_utf16_without_bom, utf16_metadata_block,
}
use scriptmetakit.Prelude.{ℕ, true, List, ◌++◌, none, some, ◌≡◌, ◌⊎◌}

abbrev IsAround : List ℕ → List ℕ → List ℕ × List ℕ → Type 0
IsAround haystack needle found = haystack ≡ found.0 ++ needle ++ found.1

-- The block stands in the bytes, from a begin marker to an end marker.
abbrev pub IsBlockOf : List ℕ → List ℕ → List ℕ → List ℕ → Type 0
IsBlockOf bytes begin end block =
    (before body after : List ℕ) × (bytes ≡ before ++ begin ++ (body ++ end ++ after))
    × (block ≡ begin ++ body ++ end)

module _ (decoders : Decoders) where
  open decoders use {from_utf8}

  abbrev pub IsUtf16Block : List ℕ → Utf16Endian → Text → Type 0
  IsUtf16Block bytes endian text =
      (block : List ℕ) × IsBlockOf bytes (utf16_marker script_meta_begin endian)
        (utf16_marker script_meta_end endian) block
      × (decode_utf16_without_bom decoders block endian ≡ some text)

  abbrev pub IsAsciiBlock : List ℕ → Text → Type 0
  IsAsciiBlock bytes text =
      (block : List ℕ) × IsBlockOf bytes script_meta_begin script_meta_end block
      × (is_ascii block ≡ true)
      × (from_utf8 block ≡ some text)

  -- A block in UTF-16, the big endian one first, or else one of ASCII.
  abbrev pub IsEmbedded : List ℕ → Text → Type 0
  IsEmbedded bytes text =
      IsUtf16Block bytes big text
      ⊎ (((utf16_metadata_block decoders bytes big ≡ none) × IsUtf16Block bytes little text)
          ⊎ ((utf16_metadata_block decoders bytes big ≡ none)
              × (utf16_metadata_block decoders bytes little ≡ none)
              × IsAsciiBlock bytes text))
