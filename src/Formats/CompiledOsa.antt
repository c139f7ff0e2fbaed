-- ===== src/Formats/CompiledOsa.antt =====
-- src/formats/compiled_osa.rs: the metadata that is read out of a compiled script without decompiling
-- it, and the guesses at its language. Running the tools of the system is not modelled. The decoders
-- of Rust's standard library are parameters.
pub mod Embedded
mod Tests
use scriptmetakit.Chars.Search.{contains_text}
use scriptmetakit.Chars.{Text, codes, trim_start, strip_prefix}
use scriptmetakit.Errors.{ok, err}
use scriptmetakit.Formats.{ScriptRuntimeKind, apple_script, java_script_for_automation}
use scriptmetakit.Localization.Preferences.{LanguageTags}
use scriptmetakit.Parser.Metadata.{parse_script_metadata}
use scriptmetakit.Parser.Urls.{UrlCrate}
use scriptmetakit.Prelude.{
  ℕ, ◌+◌, ◌*◌, Bool, not, ◌||◌, List, [], ◌∷◌, ◌++◌, Option, none, some, ltb, if◌then◌else◌, any,
  is_some,
}

abbrev pub script_meta_begin : List ℕ
script_meta_begin = codes "SCRIPTMETA-BEGIN"

abbrev pub script_meta_end : List ℕ
script_meta_end = codes "SCRIPTMETA-END"

pub record CompiledOsaMetadataSnippet : Type 0 where
  pub text : Text
  pub language_hint : Option ScriptRuntimeKind

pub data Utf16Endian : Type 0 where
  little big : Utf16Endian

-- `String::from_utf16` and `str::from_utf8`.
pub record Decoders : Type 0 where
  pub from_utf16 : List ℕ → Option Text
  pub from_utf8 : List ℕ → Option Text

unfoldable pub at_front : Option (List ℕ) → Option (List ℕ × List ℕ) → Option (List ℕ × List ℕ)
at_front (some after) later = some ([], after)
at_front none later = later

unfoldable pub behind : ℕ → Option (List ℕ × List ℕ) → Option (List ℕ × List ℕ)
behind b none = none
behind b (some (before, after)) = some (b ∷ before, after)

-- The bytes before and behind the first place of the needle, for its position.
unfoldable pub find_bytes : List ℕ → List ℕ → Option (List ℕ × List ℕ)
find_bytes [] needle = at_front (strip_prefix [] needle) none
find_bytes (b ∷ haystack) needle =
    let later = find_bytes haystack needle in
    at_front (strip_prefix (b ∷ haystack) needle) (behind b later)

unfoldable pub contains_bytes : List ℕ → List ℕ → Bool
contains_bytes haystack needle = is_some (find_bytes haystack needle)

-- From the first begin marker up to the first end marker behind it, both of them included.
unfoldable pub marked_block : List ℕ → List ℕ → List ℕ → Option (List ℕ)
marked_block bytes begin end = elim (find_bytes bytes begin) [
  | none ↦ none
  | some (_, after) ↦ elim (find_bytes after end) [
    | none ↦ none
    | some (body, _) ↦ some (begin ++ body ++ end)
  ]
]

unfoldable pub is_ascii : List ℕ → Bool
is_ascii bytes = not (any (λ b. not (ltb b 0x80)) bytes)

unfoldable pub ascii_metadata_block : List ℕ → Option (List ℕ)
ascii_metadata_block bytes = elim (marked_block bytes script_meta_begin script_meta_end) [
  | none ↦ none
  | some block ↦ if is_ascii block then some block else none
]

unfoldable pub utf16_marker : List ℕ → Utf16Endian → List ℕ
utf16_marker [] endian = []
utf16_marker (b ∷ marker) little = b ∷ 0 ∷ utf16_marker marker little
utf16_marker (b ∷ marker) big = 0 ∷ b ∷ utf16_marker marker big

unfoldable pub unit_of : Utf16Endian → ℕ → ℕ → ℕ
unit_of little a b = a + 256 * b
unit_of big a b = 256 * a + b

-- The chunks of two bytes, if none is left over.
unfoldable pub units_of : List ℕ → Utf16Endian → Option (List ℕ)
units_of [] endian = some []
units_of (a ∷ []) endian = none
units_of (a ∷ b ∷ bytes) endian =
    let later = units_of bytes endian in
    elim later [ none ↦ none | some units ↦ some (unit_of endian a b ∷ units) ]

abbrev pub automation_prefixes : List Text
automation_prefixes =
    codes "/*"
    ∷ codes "//"
    ∷ codes "ObjC."
    ∷ codes "ObjC.import"
    ∷ codes "Application("
    ∷ codes "function "
    ∷ codes "(()"
    ∷ []

unfoldable pub language_hint_from_source : Text → Option ScriptRuntimeKind
language_hint_from_source source =
    if any (λ prefix. is_some (strip_prefix (trim_start source) prefix)) automation_prefixes
      || contains_text (trim_start source) (codes "Application(\"")
      || contains_text (trim_start source) (codes "Application('")
    then some java_script_for_automation
    else some apple_script

unfoldable pub language_hint_from_compiled_bytes : List ℕ → Option ScriptRuntimeKind
language_hint_from_compiled_bytes bytes =
    if contains_bytes bytes (codes "jscr") || contains_bytes bytes (codes "JsOsa")
    then some java_script_for_automation
    else if contains_bytes bytes (codes "ascr")
    then some apple_script
    else none

module _ (decoders : Decoders) where
  open decoders use {from_utf16, from_utf8}

  unfoldable pub decode_utf16_without_bom : List ℕ → Utf16Endian → Option Text
  decode_utf16_without_bom bytes endian = elim (units_of bytes endian) [
    | none ↦ none
    | some units ↦ from_utf16 units
  ]

  unfoldable pub utf16_metadata_block : List ℕ → Utf16Endian → Option Text
  utf16_metadata_block bytes endian =
      elim (marked_block bytes (utf16_marker script_meta_begin endian)
        (utf16_marker script_meta_end endian)) [
          | none ↦ none
          | some block ↦ decode_utf16_without_bom block endian
        ]

  unfoldable pub ascii_text : List ℕ → Option Text
  ascii_text bytes = elim (ascii_metadata_block bytes) [
    | none ↦ none
    | some block ↦ from_utf8 block
  ]

  unfoldable pub or_text : Option Text → Option Text → Option Text
  or_text (some text) later = some text
  or_text none later = later

  unfoldable pub metadata_text_from_bytes : List ℕ → Option Text
  metadata_text_from_bytes bytes =
      or_text (utf16_metadata_block bytes big)
        (or_text (utf16_metadata_block bytes little) (ascii_text bytes))

  unfoldable pub extract_metadata_snippet_from_bytes :
      UrlCrate → LanguageTags → List ℕ → Option CompiledOsaMetadataSnippet
  extract_metadata_snippet_from_bytes crate tags bytes = elim (metadata_text_from_bytes bytes) [
    | none ↦ none
    | some text ↦ elim (parse_script_metadata crate tags text) [
      | err _ ↦ none
      | ok _ ↦
          some (record { text = text; language_hint = language_hint_from_compiled_bytes bytes })
    ]
  ]
