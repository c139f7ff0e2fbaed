-- ===== src/Parser/Metadata.antt =====
-- `parse_script_metadata_with_options` and the parsers of distribution pages, with the
-- `ParserOptions` and the `ScriptMetadata` of src/core/metadata.rs.
pub mod Sound
mod Tests
use scriptmetakit.Chars.{Text, codes}
use scriptmetakit.CustomMetadata.Selection.{CustomMetadataSelection}
use scriptmetakit.Errors.{ScriptMetaKitError, parse, ScriptMetaKitResult, ok, err}
use scriptmetakit.Localization.Preferences.{LanguageTags}
use scriptmetakit.Parser.Blocks.{block_between, script_metadata_body, dist_begin, dist_end}
use scriptmetakit.Parser.Distribution.{
  ◌>>=◌, optional_version_value, optional_url_value, DistributionMetadata,
  parse_distribution_metadata_fields, distribution_metadata_from_fields, parse_distribution_entries,
  select_distribution_metadata_for_script,
}
use scriptmetakit.Parser.Html.{normalize_distribution_body}
use scriptmetakit.Parser.Script.{ScriptMetadataFields, parse_script_metadata_fields}
use scriptmetakit.Parser.Urls.{UrlCrate}
use scriptmetakit.Prelude.{ℕ, Bool, true, List, [], ◌∷◌, Option, none, some, is_some}
use scriptmetakit.Sections.Items.{metadata_sections, metadata_sections_with_custom_fields}
use scriptmetakit.Sections.Project.{MetadataPresentation, Projection, project}
use scriptmetakit.Sections.{MetadataSections}

pub record ParserOptions : Type 0 where
  pub max_prefix_bytes : ℕ
  pub require_closed_block : Bool
  pub preferred_languages : List Text
  pub custom_metadata_keys : CustomMetadataSelection

-- `ParserOptions::default`.
abbrev pub default_options : ParserOptions
default_options = record {
  max_prefix_bytes = 131072;
  require_closed_block = true;
  preferred_languages = [];
  custom_metadata_keys = [];
}

-- `ok_or_else`.
unfoldable pub required {ℓ} : {A : Type ℓ} → Option A → Text → ScriptMetaKitResult A
required (some value) message = ok value
required none message = err (parse message)

unfoldable pub has_script_metadata_block_with_options : Text → ParserOptions → Bool
has_script_metadata_block_with_options text options =
    is_some (script_metadata_body text options.require_closed_block)

unfoldable pub has_script_metadata_block : Text → Bool
has_script_metadata_block text = has_script_metadata_block_with_options text default_options

unfoldable pub legacy_of_page : Option Text → Option Text
legacy_of_page none = none
legacy_of_page (some body) =
    some ((metadata_sections (normalize_distribution_body body)).legacy_body)

unfoldable pub distribution_body : Text → ScriptMetaKitResult Text
distribution_body text =
    required (legacy_of_page (block_between text dist_begin dist_end))
      (codes "missing SCRIPTMETA distribution block")

module _ (crate : UrlCrate) where
  open crate use {Url}

  pub record ScriptMetadata : Type 0 where
    pub script_id : Text
    pub version : Option Text
    pub description : Option Text
    pub target_app : Option Text
    pub min_target_version : Option Text
    pub meta_url : Option Url
    pub latest_url : Option Url
    pub latest_version : Option Text
    pub latest_page_url : Option Url
    pub name : Option Text
    pub author : Option Text
    pub release_date : Option Text
    pub edit_password_sha256 : Option Text
    pub presentation : MetadataPresentation

  -- The record that is returned, field by field; the first error is the one returned.
  unfoldable pub metadata_from :
      Text → ScriptMetadataFields → Projection → ScriptMetaKitResult ScriptMetadata
  metadata_from script_id fields p = do
    version ← optional_version_value fields.version
    meta_url ← optional_url_value crate fields.meta_url
    latest_url ← optional_url_value crate fields.latest_url
    latest_version ← optional_version_value fields.latest_version
    latest_page_url ← optional_url_value crate fields.latest_page_url
    ok (record {
      script_id = script_id;
      version = version;
      description = p.description;
      target_app = fields.target_app;
      min_target_version = fields.min_target_version;
      meta_url = meta_url;
      latest_url = latest_url;
      latest_version = latest_version;
      latest_page_url = latest_page_url;
      name = p.name;
      author = p.author;
      release_date = fields.release_date;
      edit_password_sha256 = fields.edit_password_sha256;
      presentation = p.presentation;
    })

  unfoldable pub parse_distribution_metadata :
      Text → ScriptMetaKitResult (DistributionMetadata crate)
  parse_distribution_metadata text = do
    body ← distribution_body text
    distribution_metadata_from_fields crate (parse_distribution_metadata_fields body)

  unfoldable pub parse_distribution_metadata_records :
      Text → ScriptMetaKitResult (List (DistributionMetadata crate))
  parse_distribution_metadata_records text = do
    body ← distribution_body text
    parse_distribution_entries crate body

  unfoldable pub parse_distribution_metadata_for_script :
      Text → Text → ScriptMetaKitResult (DistributionMetadata crate)
  parse_distribution_metadata_for_script text script_id = do
    records ← parse_distribution_metadata_records text
    select_distribution_metadata_for_script crate records script_id

module _ (crate : UrlCrate) (tags : LanguageTags) where
  -- The projection, and the custom fields taken over into the presentation.
  unfoldable pub project_sections : MetadataSections → ScriptMetadataFields → List Text → Projection
  project_sections sections fields preferences =
      let p = project tags sections fields.name fields.author fields.description preferences in
      record p { presentation = record p.presentation { custom_fields = sections.custom_fields } }

  unfoldable pub metadata_of_sections :
      MetadataSections → List Text → ScriptMetaKitResult (ScriptMetadata crate)
  metadata_of_sections sections preferences =
      let fields = parse_script_metadata_fields sections.legacy_body in
      do
        script_id ←
            required fields.script_id (codes "missing required SCRIPTMETA field `script-id`")
        metadata_from crate script_id fields (project_sections sections fields preferences)

  unfoldable pub parse_script_metadata_with_options :
      Text → ParserOptions → ScriptMetaKitResult (ScriptMetadata crate)
  parse_script_metadata_with_options text options = do
    body ←
        required (script_metadata_body text options.require_closed_block)
          (codes "missing SCRIPTMETA block")
    metadata_of_sections (metadata_sections_with_custom_fields body options.custom_metadata_keys)
        options.preferred_languages

  unfoldable pub parse_script_metadata : Text → ScriptMetaKitResult (ScriptMetadata crate)
  parse_script_metadata text = parse_script_metadata_with_options text default_options
