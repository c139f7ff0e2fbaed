-- ===== src/Sections.antt =====
-- src/core/metadata_sections.rs: the sections of a metadata body. Tags, descriptions and custom
-- fields are taken out of it, and what is left is the legacy body. A map is the list of its entries.
pub mod Issues
pub mod Lines
pub mod Scan
pub mod Items
pub mod Scalars
pub mod Project
pub mod WellFormed
pub mod Protected
mod Tests
use scriptmetakit.Chars.{Text}
use scriptmetakit.Localization.Diagnostics.{MetadataDiagnostic}
use scriptmetakit.Prelude.{ℕ, Bool, false, List, [], Option, none}

pub record ScalarValue : Type 0 where
  pub language : Option Text
  pub value : Text
  pub line : ℕ

abbrev pub CustomMetadataFields : Type 0
CustomMetadataFields = List (Text × List Text)

pub record MetadataSections : Type 0 where
  pub custom_fields : CustomMetadataFields
  pub legacy_body : Text
  pub raw_description : Option Text
  pub tag_lines : List Text
  pub opaque_blocks : List Text
  pub has_extensions : Bool
  pub default_language : Option Text
  pub names : List ScalarValue
  pub authors : List ScalarValue
  pub tags : List Text
  pub diagnostics : List MetadataDiagnostic

-- `MetadataSections::default()`.
abbrev pub no_sections : MetadataSections
no_sections = record {
  custom_fields = [];
  legacy_body = [];
  raw_description = none;
  tag_lines = [];
  opaque_blocks = [];
  has_extensions = false;
  default_language = none;
  names = [];
  authors = [];
  tags = [];
  diagnostics = [];
}
