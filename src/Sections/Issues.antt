-- ===== src/Sections/Issues.antt =====
-- `custom_metadata_issue` and `validate_custom_metadata_field` of src/core/custom_metadata.rs.
use scriptmetakit.Chars.{Text, codes, trim}
use scriptmetakit.CustomMetadata.Keys.{valid_key, contains_reserved_marker}
use scriptmetakit.Localization.Diagnostics.{MetadataDiagnostic}
use scriptmetakit.Parser.Fields.{contains_inline_metadata_field_raw}
use scriptmetakit.Prelude.{
  ℕ, Bool, false, not, ◌||◌, List, [], ◌∷◌, Option, none, some, ◌==◌, if◌then◌else◌, any,
}

abbrev pub is_line_break : ℕ → Bool
is_line_break c = c == 0xd || c == 0xa

-- The code of the first issue, if there is one.
unfoldable pub custom_metadata_issue : Text → Text → Option Text
custom_metadata_issue key value =
    if not (valid_key key)
    then some (codes "invalid_custom_metadata_key")
    else if any is_line_break value
    then some (codes "custom_metadata_line_break")
    else if contains_reserved_marker key || contains_reserved_marker value
    then some (codes "custom_metadata_reserved_marker")
    else if contains_inline_metadata_field_raw value false
    then some (codes "custom_metadata_legacy_field")
    else none

unfoldable pub field_issue : Text → Text → Option Text
field_issue key value =
    if any is_line_break value
    then some (codes "custom_metadata_line_break")
    else custom_metadata_issue key (trim value)

unfoldable pub issues : Text → Option Text → List MetadataDiagnostic
issues key none = []
issues key (some code) = record { code = code; field = key; language = none; line = none } ∷ []

unfoldable pub validate_custom_metadata_field : Text → Text → List MetadataDiagnostic
validate_custom_metadata_field key value = issues key (field_issue key value)
