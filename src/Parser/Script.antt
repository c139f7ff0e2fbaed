-- ===== src/Parser/Script.antt =====
-- The fields of a script's metadata block: `parse_script_metadata_fields`.
pub mod Description
mod Tests
use scriptmetakit.Chars.Lines.{lines}
use scriptmetakit.Chars.{Text, codes, trim, is_empty, text_eq, eq_ignore_ascii_case}
use scriptmetakit.Parser.Blocks.{clean_metadata_line}
use scriptmetakit.Parser.Fields.{for_each_metadata_field, script_metadata_keys}
use scriptmetakit.Prelude.{
  Bool, true, false, List, [], ◌∷◌, ◌++◌, Option, none, some, if◌then◌else◌,
}

pub record ScriptMetadataFields : Type 0 where
  pub script_id : Option Text
  pub version : Option Text
  pub description : Option Text
  pub target_app : Option Text
  pub min_target_version : Option Text
  pub meta_url : Option Text
  pub latest_url : Option Text
  pub latest_version : Option Text
  pub latest_page_url : Option Text
  pub name : Option Text
  pub author : Option Text
  pub release_date : Option Text
  pub edit_password_sha256 : Option Text

abbrev pub no_fields : ScriptMetadataFields
no_fields = record {
  script_id = none;
  version = none;
  description = none;
  target_app = none;
  min_target_version = none;
  meta_url = none;
  latest_url = none;
  latest_version = none;
  latest_page_url = none;
  name = none;
  author = none;
  release_date = none;
  edit_password_sha256 = none;
}

unfoldable pub set_script_metadata_field : Text → Text → ScriptMetadataFields → ScriptMetadataFields
set_script_metadata_field key value fields =
    if eq_ignore_ascii_case key (codes "script-id")
    then record fields { script_id = some value }
    else if eq_ignore_ascii_case key (codes "version")
    then record fields { version = some value }
    else if eq_ignore_ascii_case key (codes "description")
    then record fields { description = some value }
    else if eq_ignore_ascii_case key (codes "target-app")
    then record fields { target_app = some value }
    else if eq_ignore_ascii_case key (codes "min-target-version")
    then record fields { min_target_version = some value }
    else if eq_ignore_ascii_case key (codes "meta-url")
    then record fields { meta_url = some value }
    else if eq_ignore_ascii_case key (codes "latest-url")
    then record fields { latest_url = some value }
    else if eq_ignore_ascii_case key (codes "latest-version")
    then record fields { latest_version = some value }
    else if eq_ignore_ascii_case key (codes "latest-page-url")
    then record fields { latest_page_url = some value }
    else if eq_ignore_ascii_case key (codes "name")
    then record fields { name = some value }
    else if eq_ignore_ascii_case key (codes "author")
    then record fields { author = some value }
    else if eq_ignore_ascii_case key (codes "release-date")
    then record fields { release_date = some value }
    else if eq_ignore_ascii_case key (codes "edit-password-sha256")
    then record fields { edit_password_sha256 = some value }
    else fields

-- The variables that the loop over the lines changes.
pub record Reading : Type 0 where
  pub fields : ScriptMetadataFields
  pub description : Text
  pub description_needs_separator : Bool
  pub in_description : Bool

abbrev pub start : Reading
start = record {
  fields = no_fields;
  description = [];
  description_needs_separator = false;
  in_description = false;
}

unfoldable pub push_description_line : Text → Reading → Reading
push_description_line line r = record r {
  description =
      (if r.description_needs_separator then r.description ++ 0xa ∷ [] else r.description) ++ line;
  description_needs_separator = true;
}

abbrev pub description_begin : Text
description_begin = codes "Description-BEGIN"

abbrev pub description_end : Text
description_end = codes "Description-END"

unfoldable pub set_field : Text → Text → ScriptMetadataFields → ScriptMetadataFields
set_field key value fields =
    if is_empty value then fields else set_script_metadata_field (trim key) value fields

unfoldable pub set_fields : List (Text × Text) → ScriptMetadataFields → ScriptMetadataFields
set_fields [] fields = fields
set_fields ((key, value) ∷ rest) fields = set_fields rest (set_field key (trim value) fields)

unfoldable pub plain_line : Text → Reading → Reading
plain_line line r = if r.in_description then push_description_line line r else record r {
  fields = set_fields (for_each_metadata_field line script_metadata_keys) r.fields;
}

unfoldable pub begin_description : Reading → Reading
begin_description r = record r {
  in_description = true;
  description = [];
  description_needs_separator = false;
}

unfoldable pub end_description : Reading → Reading
end_description r = record r {
  in_description = false;
  fields = record r.fields { description = some r.description };
  description = [];
  description_needs_separator = false;
}

-- The body of the loop, for a cleaned line.
unfoldable pub read_clean : Text → Reading → Reading
read_clean line r =
    if is_empty line
    then (if r.in_description then push_description_line [] r else r)
    else if text_eq line description_begin
    then begin_description r
    else if text_eq line description_end
    then end_description r
    else plain_line line r

unfoldable pub read_lines : List Text → Reading → Reading
read_lines [] r = r
read_lines (raw_line ∷ rest) r = read_lines rest (read_clean (clean_metadata_line raw_line) r)

unfoldable pub parse_script_metadata_fields : Text → ScriptMetadataFields
parse_script_metadata_fields body = (read_lines (lines body) start).fields
