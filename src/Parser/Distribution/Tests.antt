-- ===== src/Parser/Distribution/Tests.antt =====
-- The theorems on distribution pages, applied to a page with two records.
use scriptmetakit.Chars.Lines.{lines}
use scriptmetakit.Chars.Search.{consed}
use scriptmetakit.Chars.{
  Text, codes, trim, trim_start, trim_end, is_whitespace, is_empty, eq_ignore_ascii_case,
  to_ascii_lowercase, ascii_lower, text_eq, strip_prefix,
}
use scriptmetakit.Errors.{ok}
use scriptmetakit.Parser.Distribution.Choice.{
  select_distribution_metadata_for_script-last, select-parse_distribution_entries,
}
use scriptmetakit.Parser.Distribution.{
  DistributionMetadata, parse_distribution_entries, is_single, finish, add_lines, add_line,
  add_fields, add_nonblank, add_field, next_entry, distribution_metadata_from_fields,
  optional_url_value, optional_version_value, blank_field, is_script_id,
  set_distribution_metadata_field, has_script_id,
}
use scriptmetakit.Parser.Blocks.{
  clean_metadata_line, strip_comments, strip_comment, starts_with_marker,
}
use scriptmetakit.Parser.Fields.{
  for_each_metadata_field, calls, fields_of, value_until, find_metadata_field_boundaries,
  boundaries_from, add_boundary, field_here, metadata_field_at, metadata_value_start,
  split_key_value,
}
use scriptmetakit.Parser.Urls.{UrlCrate}
use scriptmetakit.Prelude.{true, false, [], ◌∷◌, none, some, ◌≡◌, refl, ◌⊎◌}

-- A crate that takes every text for a URL with a host.
abbrev text_urls : UrlCrate
text_urls = record {
  Url = Text;
  parse = λ text. some text;
  scheme = λ url. codes "https";
  has_file_path = λ url. false;
  has_host = λ url. true;
}

abbrev page : Text
page = codes "Name=x\nScript-ID=a Author=y\nScript-ID: b\n"

abbrev named : Text → DistributionMetadata text_urls
named id = record {
  script_id = some id;
  latest_version = none;
  latest_url = none;
  latest_page_url = none;
  note = none;
}

page-parsed :
    parse_distribution_entries text_urls page ≡ ok (named (codes "a") ∷ named (codes "b") ∷ [])
unfolding parse_distribution_entries finish add_lines add_line add_fields add_nonblank add_field
    next_entry distribution_metadata_from_fields optional_url_value optional_version_value
    blank_field is_script_id set_distribution_metadata_field for_each_metadata_field calls fields_of
    value_until find_metadata_field_boundaries boundaries_from add_boundary field_here
    metadata_field_at metadata_value_start split_key_value clean_metadata_line strip_comments
    strip_comment starts_with_marker lines trim trim_start trim_end is_whitespace is_empty
    eq_ignore_ascii_case to_ascii_lowercase ascii_lower text_eq strip_prefix consed
page-parsed = refl

is_single-page : is_single text_urls (named (codes "a") ∷ named (codes "b") ∷ []) ≡ false
unfolding is_single
is_single-page = refl

select-parse_distribution_entries_example :
    ((named (codes "a")).script_id ≡ some (codes "a"))
    ⊎ (((named (codes "a")).latest_version ≡ none) × ((named (codes "a")).latest_url ≡ none))
unfolding has_script_id text_eq
select-parse_distribution_entries_example =
    select-parse_distribution_entries text_urls page (codes "a")
      (named (codes "a") ∷ named (codes "b") ∷ []) (named (codes "a")) page-parsed is_single-page
      (select_distribution_metadata_for_script-last text_urls (codes "a") []
        (named (codes "b") ∷ []) (named (codes "a")) refl refl)
