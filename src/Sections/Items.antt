-- ===== src/Sections/Items.antt =====
-- `metadata_sections_inner`: the fields of a body, one line of it, and the whole of it.
use scriptmetakit.Chars.Lines.{lines, join_lines}
use scriptmetakit.Chars.{Text, codes, trim, trim_start, is_empty, eq_ignore_ascii_case}
use scriptmetakit.CustomMetadata.Keys.{has_custom_metadata_prefix}
use scriptmetakit.CustomMetadata.Selection.{CustomMetadataSelection}
use scriptmetakit.Localization.Description.{normalized_newlines}
use scriptmetakit.Localization.Tags.{item_separator, is_block_marker}
use scriptmetakit.Parser.Fields.{is_separator}
use scriptmetakit.Prelude.{
  ℕ, suc, ◌+◌, Bool, true, false, not, ◌&&◌, ◌||◌, List, [], ◌∷◌, ◌++◌, Option, none, some,
  if◌then◌else◌, is_some, any, take, drop,
}
use scriptmetakit.Sections.Lines.{
  infer_metadata_line_prefix, strip_metadata_line_prefix, localized_key, description_end_marker,
}
use scriptmetakit.Sections.Scan.{
  Scan, start, issue, collect_tags, ends_with_comma, add_legacy, description_line, custom_line,
  tag_line, blank_tag_line, open_description,
}
use scriptmetakit.Sections.{ScalarValue, MetadataSections}

unfoldable pub tags_item : Text → Text → Scan → Scan
tags_item raw value s = record s {
  result = record s.result {
    has_extensions = true;
    tag_lines = s.result.tag_lines ++ raw ∷ [];
    tags = collect_tags value s.result.tags;
  };
  in_tags = ends_with_comma value;
}

unfoldable pub set_default_language : Text → Text → ℕ → MetadataSections → MetadataSections
set_default_language key value index s =
    if is_some s.default_language
    then issue (codes "repeated_default_language") key (some (index + 1)) s
    else record s { default_language = some value }

unfoldable pub default_language_item : Text → Text → ℕ → Scan → Scan
default_language_item key value index s =
    let extended = record s.result { has_extensions = true } in
    record s {
      result = if is_empty value then extended else set_default_language key value index extended;
    }

abbrev scalar : Option Text → Text → ℕ → ScalarValue
scalar language value index = record { language = language; value = value; line = index + 1 }

-- `Name` or `Author` without a language.
unfoldable pub plain_item : Bool → Text → Text → ℕ → Scan → Scan
plain_item is_name raw value index s = add_legacy raw true (record s {
  result =
      if is_name
      then record s.result { names = s.result.names ++ scalar none value index ∷ [] }
      else record s.result { authors = s.result.authors ++ scalar none value index ∷ [] };
})

unfoldable pub localized_name : Text → Text → ℕ → Scan → Scan
localized_name language value index s = record s {
  result = record s.result {
    has_extensions = true;
    names = s.result.names ++ scalar (some language) value index ∷ [];
  };
}

unfoldable pub localized_author : Text → Text → ℕ → Scan → Scan
localized_author language value index s = record s {
  result = record s.result {
    has_extensions = true;
    authors = s.result.authors ++ scalar (some language) value index ∷ [];
  };
}

unfoldable pub localized_item : Text → Text → Text → ℕ → Scan → Scan
localized_item raw key value index s = elim (localized_key key (codes "Name")) [
  | some language ↦ localized_name language value index s
  | none ↦ elim (localized_key key (codes "Author")) [
    | some language ↦ localized_author language value index s
    | none ↦ add_legacy raw false s
  ]
]

-- A field: the key, the trimmed value, and the value as it stands behind the separator.
unfoldable pub item : Text → Text → Text → Text → ℕ → Scan → Scan
item raw key value untrimmed index s =
    if eq_ignore_ascii_case key (codes "Tags")
    then tags_item raw value s
    else if eq_ignore_ascii_case key (codes "Meta-Default-language")
    then default_language_item key value index s
    else if eq_ignore_ascii_case key (codes "Description")
    then record s { result = record s.result { raw_description = some value } }
    else if eq_ignore_ascii_case key (codes "Name") || eq_ignore_ascii_case key (codes "Author")
    then plain_item (eq_ignore_ascii_case key (codes "Name")) raw untrimmed index s
    else localized_item raw key untrimmed index s

unfoldable pub item_line : Text → Text → ℕ → Scan → Scan
item_line raw line index s = elim (item_separator line) [
  | none ↦ add_legacy raw false s
  | some separator ↦
      item raw (trim (take separator line)) (trim (drop (suc separator) line))
        (drop (suc separator) (trim_start raw)) index s
]

-- A line outside of descriptions and tags that is not one of custom metadata.
unfoldable pub plain_line : Text → ℕ → Scan → Scan
plain_line raw index s = elim (description_end_marker (trim raw)) [
  | some end ↦ open_description end raw index s
  | none ↦ item_line raw (trim raw) index s
]

unfoldable pub is_tag_text : Text → Bool
is_tag_text line = not (is_some (item_separator line)) && not (is_block_marker line)

unfoldable pub line_in_tags : Text → ℕ → Scan → Scan
line_in_tags raw index s =
    if is_empty (trim raw)
    then blank_tag_line raw s
    else if is_tag_text (trim raw)
    then tag_line raw s
    else plain_line raw index (record s { in_tags = false })

unfoldable pub is_custom_line : Bool → Text → Bool
is_custom_line in_tags line =
    has_custom_metadata_prefix line && (not in_tags || any is_separator line)

-- `filter_map` over the legacy lines.
unfoldable pub legacy_lines : Bool → List (Text × Bool) → List Text
legacy_lines has_extensions [] = []
legacy_lines has_extensions ((line, is_scalar) ∷ rest) =
    let later = legacy_lines has_extensions rest in
    if not is_scalar || not has_extensions then line ∷ later else later

unfoldable pub note_unclosed : Option Text → MetadataSections → MetadataSections
note_unclosed none s = s
note_unclosed (some end) s = issue (codes "unclosed_description") (codes "Description") none s

unfoldable pub finish : Scan → MetadataSections
finish s =
    let result = note_unclosed s.description_end s.result in
    record result { legacy_body = join_lines (legacy_lines result.has_extensions s.legacy) }

module _ (keys : CustomMetadataSelection) (editing : Bool) where
  unfoldable pub outer_line : Text → ℕ → Scan → Scan
  outer_line raw index s =
      if is_custom_line s.in_tags (trim raw)
      then custom_line keys editing raw index s
      else if s.in_tags
      then line_in_tags raw index s
      else plain_line raw index s

  -- The body of the loop.
  unfoldable pub scan_line : Text → ℕ → Scan → Scan
  scan_line raw index s = elim s.description_end [
    | some end ↦ description_line end raw index s
    | none ↦ outer_line raw index s
  ]

  unfoldable pub scan_lines : Option Text → List Text → ℕ → Scan → Scan
  scan_lines prefix [] index s = s
  scan_lines prefix (raw_line ∷ rest) index s =
      scan_lines prefix rest (suc index)
        (scan_line (strip_metadata_line_prefix raw_line prefix) index s)

  unfoldable pub metadata_sections_inner : Text → MetadataSections
  metadata_sections_inner body =
      let normalized = normalized_newlines body in
      finish (scan_lines (infer_metadata_line_prefix normalized) (lines normalized) 0 start)

unfoldable pub metadata_sections : Text → MetadataSections
metadata_sections body = metadata_sections_inner [] false body

unfoldable pub metadata_sections_with_custom_fields :
    Text → CustomMetadataSelection → MetadataSections
metadata_sections_with_custom_fields body keys = metadata_sections_inner keys false body

unfoldable pub metadata_sections_for_editing : Text → MetadataSections
metadata_sections_for_editing body = metadata_sections_inner [] true body
