-- ===== src/Sections/Scan.antt =====
-- `metadata_sections_inner`: the loop over the lines of a body.
use scriptmetakit.Chars.Distinct.{push_all}
use scriptmetakit.Chars.Lines.{join_lines}
use scriptmetakit.Chars.Search.{split, split_once}
use scriptmetakit.Chars.{Text, codes, trim, is_whitespace, is_empty, text_eq, eq_ignore_ascii_case}
use scriptmetakit.CustomMetadata.Keys.{normalize_custom_metadata_key}
use scriptmetakit.CustomMetadata.Selection.{CustomMetadataSelection, contains}
use scriptmetakit.Errors.{ScriptMetaKitResult, ok, err}
use scriptmetakit.Localization.Diagnostics.{diagnostic}
use scriptmetakit.Parser.Fields.{is_separator}
use scriptmetakit.Prelude.{
  ℕ, ◌+◌, Bool, false, not, ◌&&◌, ◌||◌, List, [], ◌∷◌, ◌++◌, map, Option, none, some, ◌==◌,
  if◌then◌else◌, is_some, filter, take_while,
}
use scriptmetakit.Sections.Issues.{custom_metadata_issue}
use scriptmetakit.Sections.{CustomMetadataFields, MetadataSections, no_sections}

-- The variables that the loop changes. `seen_tags` holds the elements of `tags`. A line of the
-- legacy body carries the flag that it is dropped when the body has extensions.
pub record Scan : Type 0 where
  pub result : MetadataSections
  pub legacy : List (Text × Bool)
  pub in_tags : Bool
  pub description_end : Option Text
  pub description_lines : List Text
  pub ignored_description : Bool

abbrev pub start : Scan
start = record {
  result = no_sections;
  legacy = [];
  in_tags = false;
  description_end = none;
  description_lines = [];
  ignored_description = false;
}

-- `diagnostic(&mut result.diagnostics, code, field, None, line)`.
unfoldable pub issue : Text → Text → Option ℕ → MetadataSections → MetadataSections
issue code field line s = record s { diagnostics = diagnostic s.diagnostics code field none line }

unfoldable pub tag_values : Text → List Text
tag_values value = filter (λ part. not (is_empty part)) (map trim (split b',' value))

unfoldable pub collect_tags : Text → List Text → List Text
collect_tags value tags = push_all tags (tag_values value)

unfoldable pub ends_with_comma : Text → Bool
ends_with_comma [] = false
ends_with_comma (c ∷ []) = c == b','
ends_with_comma (c ∷ d ∷ s) = ends_with_comma (d ∷ s)

unfoldable pub add_legacy : Text → Bool → Scan → Scan
add_legacy raw scalar s = record s { legacy = s.legacy ++ (raw, scalar) ∷ [] }

-- Inside a description.
unfoldable pub ends_description : Text → Text → Bool
ends_description end line =
    if text_eq end (codes "Description-END")
    then text_eq line end
    else eq_ignore_ascii_case line end

unfoldable pub note_repeated : ℕ → MetadataSections → MetadataSections
note_repeated index s =
    if is_some s.raw_description
    then issue (codes "repeated_description_block") (codes "Description") (some (index + 1)) s
    else s

-- The body that a closing marker ends becomes the description, or is kept as an opaque block.
unfoldable pub close_result : Text → ℕ → Scan → MetadataSections
close_result raw index s =
    if s.ignored_description
    then record s.result {
      opaque_blocks = s.result.opaque_blocks ++ join_lines (s.description_lines ++ raw ∷ []) ∷ [];
    }
    else record (note_repeated index s.result) {
      raw_description = some (join_lines s.description_lines);
    }

unfoldable pub close_description : Text → ℕ → Scan → Scan
close_description raw index s = record s {
  result = close_result raw index s;
  description_lines = [];
  description_end = none;
}

unfoldable pub description_line : Text → Text → ℕ → Scan → Scan
description_line end raw index s =
    if ends_description end (trim raw)
    then close_description raw index s
    else record s { description_lines = s.description_lines ++ raw ∷ [] }

-- `result.custom_fields.entry(key).or_default().push(value)`.
unfoldable pub push_custom : Text → Text → CustomMetadataFields → CustomMetadataFields
push_custom key value [] = (key, value ∷ []) ∷ []
push_custom key value ((own, values) ∷ rest) =
    let later = push_custom key value rest in
    if text_eq own key then (own, values ++ value ∷ []) ∷ rest else (own, values) ∷ later

unfoldable pub diagnostic_key : Text → Text
diagnostic_key line = take_while (λ c. not (is_whitespace c || is_separator c)) line

unfoldable pub note_issue : Option Text → Text → ℕ → MetadataSections → MetadataSections
note_issue none field index s = s
note_issue (some code) field index s = issue code field (some (index + 1)) s

unfoldable pub add_custom : ScriptMetaKitResult Text → Text → MetadataSections → MetadataSections
add_custom (ok key) value s = record s {
  custom_fields = push_custom key (trim value) s.custom_fields;
}
add_custom (err error) value s = s

module _ (keys : CustomMetadataSelection) (editing : Bool) where
  unfoldable pub custom_field : Text → ℕ → Text → Text → MetadataSections → MetadataSections
  custom_field field index key value s =
      let noted = note_issue (custom_metadata_issue key value) field index s in
      if editing || (not (is_some (custom_metadata_issue key value)) && contains keys key)
      then add_custom (normalize_custom_metadata_key key) value noted
      else noted

  unfoldable pub custom_result : Text → ℕ → MetadataSections → MetadataSections
  custom_result line index s = elim (split_once b'=' line) [
    | none ↦
        issue (codes "invalid_custom_metadata_field") (diagnostic_key line) (some (index + 1)) s
    | some (key, value) ↦ custom_field (diagnostic_key line) index (trim key) value s
  ]

  unfoldable pub custom_line : Text → ℕ → Scan → Scan
  custom_line raw index s =
      let kept = if editing then add_legacy raw false s else s in
      record kept { in_tags = false; result = custom_result (trim raw) index kept.result }

-- A line that continues the tags.
unfoldable pub tag_line : Text → Scan → Scan
tag_line raw s = record s {
  result = record s.result {
    tag_lines = s.result.tag_lines ++ raw ∷ [];
    tags = collect_tags (trim raw) s.result.tags;
  };
  in_tags = ends_with_comma (trim raw);
}

unfoldable pub blank_tag_line : Text → Scan → Scan
blank_tag_line raw s = record s {
  result = record s.result { tag_lines = s.result.tag_lines ++ raw ∷ [] };
}

-- The begin marker of a description, with the marker that will end it.
unfoldable pub ignored_result : ℕ → MetadataSections → MetadataSections
ignored_result index s =
    issue (codes "unsupported_description_block") (codes "Description") (some (index + 1)) s

unfoldable pub open_description : Text → Text → ℕ → Scan → Scan
open_description end raw index s =
    let supported = eq_ignore_ascii_case (trim raw) (codes "Description-BEGIN") in
    record s {
      ignored_description = not supported;
      result = if supported then s.result else ignored_result index s.result;
      description_lines =
          if supported then s.description_lines else s.description_lines ++ raw ∷ [];
      description_end = some end;
    }
