-- ===== src/Parser/Metadata/Tests.antt =====
-- A script with a block of metadata.
use scriptmetakit.Chars.Lines.{lines, join_lines}
use scriptmetakit.Chars.Search.{
  consed, split_once, strip_suffix, is_ascii_whitespace, any_window, split,
}
use scriptmetakit.Chars.{
  Text, codes, trim, trim_start, trim_end, is_whitespace, is_empty, eq_ignore_ascii_case,
  to_ascii_lowercase, ascii_lower, text_eq, strip_prefix, is_ascii_digit, is_ascii_alphabetic,
  is_ascii_alphanumeric,
}
use scriptmetakit.CustomMetadata.Keys.{
  has_custom_metadata_prefix, creator_part, first_alphanumeric, last_alphanumeric, field_byte,
  valid_parts, valid_key, contains_reserved_marker, normalize_custom_metadata_key,
}
use scriptmetakit.CustomMetadata.Selection.{is_all, contains}
use scriptmetakit.Errors.{ok}
use scriptmetakit.Localization.Description.{newlines, normalized_newlines}
use scriptmetakit.Localization.Preferences.Tests.{toy}
use scriptmetakit.Localization.Select.{
  nonblank, try_preferences, without_default, without_preference, select_text,
}
use scriptmetakit.Localization.Tags.{
  key_byte, behind_language, separator_here, separator_at, item_separator, marker_key,
  is_block_marker,
}
use scriptmetakit.Parser.Blocks.{
  starts_with_marker, find_ascii_case_insensitive, strip_comment, strip_comments,
  clean_metadata_line, last_line, custom_metadata_boundary_is_embedded, closed_body,
  script_metadata_body,
}
use scriptmetakit.Parser.Distribution.{optional_version_value, optional_url_value}
use scriptmetakit.Parser.Fields.{
  split_key_value, metadata_value_start, metadata_field_at, field_here, add_boundary,
  boundaries_from, find_metadata_field_boundaries, value_until, fields_of, calls,
  for_each_metadata_field, inline_field, contains_inline_metadata_field_raw,
}
use scriptmetakit.Parser.Metadata.Sound.{
  IsChecked, IsPresented, parse_script_metadata_with_options-IsChecked,
}
use scriptmetakit.Parser.Metadata.{
  ParserOptions, ScriptMetadata, required, metadata_from, project_sections, metadata_of_sections,
  parse_script_metadata_with_options,
}
use scriptmetakit.Parser.Script.{
  set_script_metadata_field, set_field, set_fields, plain_line as script_line, read_clean,
  read_lines, parse_script_metadata_fields,
}
use scriptmetakit.Parser.Urls.Tests.{https_urls}
use scriptmetakit.Prelude.{true, [], ◌∷◌, none, some, ◌≡◌, refl}
use scriptmetakit.Sections.Issues.{custom_metadata_issue}
use scriptmetakit.Sections.Items.{
  item, item_line, plain_line, localized_item, is_custom_line, legacy_lines, note_unclosed, finish,
  outer_line, scan_line, scan_lines, metadata_sections_inner, metadata_sections_with_custom_fields,
  plain_item,
}
use scriptmetakit.Sections.Lines.{
  begins_item, behind_prefix, prefix_of, prefix_in, infer_metadata_line_prefix, without_space,
  strip_metadata_line_prefix, in_brackets, localized_key, end_of_key, description_end_marker,
}
use scriptmetakit.Sections.Project.{
  any_language, project_tags, lacks_name, note_missing_name, or_else, project_language, scalars,
  project_description, project,
}
use scriptmetakit.Sections.Scan.{
  add_legacy, push_custom, note_issue, add_custom, custom_field, custom_result, custom_line,
}
use scriptmetakit.Version.{component, components, scan_version, compact, normalize_version_string}

abbrev options : ParserOptions
options = record {
  max_prefix_bytes = 131072;
  require_closed_block = true;
  preferred_languages = [];
  custom_metadata_keys = codes "X-a-b" ∷ [];
}

abbrev script : Text
script = codes "SCRIPTMETA-BEGIN\n# Script-ID=s\n# Version= v1.2\n# X-A-b=1 \nSCRIPTMETA-END"

abbrev parsed : ScriptMetadata https_urls
parsed = record {
  script_id = codes "s";
  version = some (codes "1.2");
  description = none;
  target_app = none;
  min_target_version = none;
  meta_url = none;
  latest_url = none;
  latest_version = none;
  latest_page_url = none;
  name = none;
  author = none;
  release_date = none;
  edit_password_sha256 = none;
  presentation = record {
    custom_fields = (codes "X-a-b", codes "1" ∷ []) ∷ [];
    default_language = none;
    name_language = none;
    author_language = none;
    description_language = none;
    tags = [];
    diagnostics = [];
  };
}

script-parsed : parse_script_metadata_with_options https_urls toy script options ≡ ok parsed
unfolding lines join_lines consed split_once strip_suffix is_ascii_whitespace any_window split trim
    trim_start trim_end is_whitespace is_empty eq_ignore_ascii_case to_ascii_lowercase ascii_lower
    text_eq strip_prefix is_ascii_digit is_ascii_alphabetic is_ascii_alphanumeric
    has_custom_metadata_prefix creator_part first_alphanumeric last_alphanumeric field_byte
    valid_parts valid_key contains_reserved_marker normalize_custom_metadata_key is_all contains
    newlines normalized_newlines nonblank try_preferences without_default without_preference
    select_text key_byte behind_language separator_here separator_at item_separator marker_key
    is_block_marker starts_with_marker find_ascii_case_insensitive strip_comment strip_comments
    clean_metadata_line last_line custom_metadata_boundary_is_embedded closed_body
    script_metadata_body optional_version_value optional_url_value split_key_value
    metadata_value_start metadata_field_at field_here add_boundary boundaries_from
    find_metadata_field_boundaries value_until fields_of calls for_each_metadata_field inline_field
    contains_inline_metadata_field_raw required metadata_from project_sections metadata_of_sections
    parse_script_metadata_with_options set_script_metadata_field set_field set_fields script_line
    read_clean read_lines parse_script_metadata_fields custom_metadata_issue item item_line
    localized_item is_custom_line legacy_lines note_unclosed finish outer_line scan_line scan_lines
    metadata_sections_inner metadata_sections_with_custom_fields plain_item begins_item
    behind_prefix prefix_of prefix_in infer_metadata_line_prefix without_space
    strip_metadata_line_prefix in_brackets localized_key end_of_key description_end_marker
    any_language project_tags lacks_name note_missing_name or_else project_language scalars
    project_description project add_legacy push_custom note_issue add_custom custom_field
    custom_result custom_line component components scan_version compact normalize_version_string
    plain_line
script-parsed = refl

parse_script_metadata_with_options-IsChecked_example :
    IsChecked https_urls parsed × IsPresented (codes "X-a-b" ∷ []) parsed.presentation
parse_script_metadata_with_options-IsChecked_example =
    parse_script_metadata_with_options-IsChecked https_urls toy script options parsed script-parsed
