-- ===== src/Parser/Distribution.antt =====
-- The metadata of a distribution page, of src/core/parser.rs.
pub mod Ids
pub mod Choice
mod Tests
use scriptmetakit.Chars.Lines.{lines}
use scriptmetakit.Chars.{Text, codes, trim, is_empty, text_eq, eq_ignore_ascii_case}
use scriptmetakit.Errors.{ScriptMetaKitError, parse, ScriptMetaKitResult, ok, err}
use scriptmetakit.Parser.Blocks.{clean_metadata_line}
use scriptmetakit.Parser.Fields.{for_each_metadata_field, distribution_metadata_keys}
use scriptmetakit.Parser.Urls.{UrlCrate, normalize_metadata_url}
use scriptmetakit.Prelude.{
  Bool, true, false, ◌&&◌, ◌||◌, not, List, [], ◌∷◌, ◌++◌, Option, none, some, if◌then◌else◌,
  is_some, all,
}
use scriptmetakit.Version.{normalize_version_string}

-- `?` on a result.
infixl 5 ◌>>=◌
abbrev pub ◌>>=◌ {ℓ κ} :
    {A : Type ℓ} {B : Type κ}
    → ScriptMetaKitResult A
    → (A → ScriptMetaKitResult B)
    → ScriptMetaKitResult B
ok a >>= f = f a
err e >>= f = err e

unfoldable pub optional_version_value : Option Text → ScriptMetaKitResult (Option Text)
optional_version_value none = ok none
optional_version_value (some value) = elim (normalize_version_string value) [
  | some version ↦ ok (some version)
  | none ↦ err (parse (codes "invalid version `" ++ value ++ codes "`"))
]

pub record DistributionMetadataFields : Type 0 where
  pub has_any : Bool
  pub script_id : Option Text
  pub version : Option Text
  pub latest_version : Option Text
  pub latest_url : Option Text
  pub latest_page_url : Option Text
  pub note : Option Text

abbrev pub no_fields : DistributionMetadataFields
no_fields = record {
  has_any = false;
  script_id = none;
  version = none;
  latest_version = none;
  latest_url = none;
  latest_page_url = none;
  note = none;
}

pub set_distribution_metadata_field :
    Text → Text → DistributionMetadataFields → DistributionMetadataFields
set_distribution_metadata_field key value fields =
    if eq_ignore_ascii_case key (codes "script-id")
    then record fields { has_any = true; script_id = some value }
    else if eq_ignore_ascii_case key (codes "version")
    then record fields { has_any = true; version = some value }
    else if eq_ignore_ascii_case key (codes "latest-version")
    then record fields { has_any = true; latest_version = some value }
    else if eq_ignore_ascii_case key (codes "latest-url")
    then record fields { has_any = true; latest_url = some value }
    else if eq_ignore_ascii_case key (codes "latest-page-url")
    then record fields { has_any = true; latest_page_url = some value }
    else fields

pub is_script_id : Text → Bool
is_script_id key = eq_ignore_ascii_case key (codes "script-id")

blank_field : Text → Text → Bool
blank_field key value = is_empty key || is_empty value

set_one : Text → Text → DistributionMetadataFields → DistributionMetadataFields
set_one key value fields =
    if blank_field key value then fields else set_distribution_metadata_field key value fields

set_all : List (Text × Text) → DistributionMetadataFields → DistributionMetadataFields
set_all [] fields = fields
set_all ((key, value) ∷ rest) fields = set_all rest (set_one (trim key) (trim value) fields)

set_line : Text → DistributionMetadataFields → DistributionMetadataFields
set_line line fields =
    if is_empty line
    then fields
    else set_all (for_each_metadata_field line distribution_metadata_keys) fields

set_lines : List Text → DistributionMetadataFields → DistributionMetadataFields
set_lines [] fields = fields
set_lines (raw_line ∷ rest) fields = set_lines rest (set_line (clean_metadata_line raw_line) fields)

pub parse_distribution_metadata_fields : Text → DistributionMetadataFields
parse_distribution_metadata_fields body = set_lines (lines body) no_fields

module _ (crate : UrlCrate) where
  open crate use {Url}

  pub record DistributionMetadata : Type 0 where
    pub script_id : Option Text
    pub latest_version : Option Text
    pub latest_url : Option Url
    pub latest_page_url : Option Url
    pub note : Option Text

  unfoldable pub optional_url_value : Option Text → ScriptMetaKitResult (Option Url)
  optional_url_value none = ok none
  optional_url_value (some value) = elim (normalize_metadata_url crate value) [
    | some url ↦ ok (some url)
    | none ↦ err (parse (codes "invalid URL `" ++ value ++ codes "`"))
  ]

  pub distribution_metadata_from_fields :
      DistributionMetadataFields → ScriptMetaKitResult DistributionMetadata
  distribution_metadata_from_fields fields = do
    latest_version ←
        optional_version_value
          (elim fields.version [ some v ↦ some v | none ↦ fields.latest_version ])
    latest_url ← optional_url_value fields.latest_url
    latest_page_url ← optional_url_value fields.latest_page_url
    ok (record {
      script_id = fields.script_id;
      latest_version = latest_version;
      latest_url = latest_url;
      latest_page_url = latest_page_url;
      note = fields.note;
    })

  -- `entries` and `fields`, which the loops of `parse_distribution_entries` change.
  pub record Entries : Type 0 where
    pub entries : List DistributionMetadata
    pub fields : DistributionMetadataFields

  -- `std::mem::take`, and the entry that the taken fields give.
  pub next_entry : Entries → ScriptMetaKitResult Entries
  next_entry e = do
    entry ← distribution_metadata_from_fields e.fields
    ok (record { entries = e.entries ++ entry ∷ []; fields = no_fields })

  pub add_field : Text → Text → Entries → ScriptMetaKitResult Entries
  add_field key value e = do
    ready ← elim (is_script_id key && is_some e.fields.script_id) [
      | true ↦ next_entry e
      | false ↦ ok e
    ]
    ok (record ready { fields = set_distribution_metadata_field key value ready.fields })

  pub add_nonblank : Text → Text → Entries → ScriptMetaKitResult Entries
  add_nonblank key value e = elim (blank_field key value) [
    | true ↦ ok e
    | false ↦ add_field key value e
  ]

  pub add_fields : List (Text × Text) → Entries → ScriptMetaKitResult Entries
  add_fields [] e = ok e
  add_fields ((key, value) ∷ rest) e = do
    next ← add_nonblank (trim key) (trim value) e
    add_fields rest next

  pub add_line : Text → Entries → ScriptMetaKitResult Entries
  add_line line e = elim (is_empty line) [
    | true ↦ ok e
    | false ↦ add_fields (for_each_metadata_field line distribution_metadata_keys) e
  ]

  pub add_lines : List Text → Entries → ScriptMetaKitResult Entries
  add_lines [] e = ok e
  add_lines (raw_line ∷ rest) e = do
    next ← add_line (clean_metadata_line raw_line) e
    add_lines rest next

  pub finish : Entries → ScriptMetaKitResult (List DistributionMetadata)
  finish e = elim (e.fields.has_any && is_some e.fields.script_id) [
    | true ↦ do last ← next_entry e; ok last.entries
    | false ↦ ok e.entries
  ]

  pub parse_distribution_entries : Text → ScriptMetaKitResult (List DistributionMetadata)
  parse_distribution_entries body = do
    e ← add_lines (lines body) (record { entries = []; fields = no_fields })
    finish e

  -- `entry.script_id.as_deref() == Some(script_id)`
  pub has_script_id : Text → DistributionMetadata → Bool
  has_script_id id entry = elim entry.script_id [ none ↦ false | some own ↦ text_eq own id ]

  -- `iter().rev().find(…)`
  pub find_last :
      (DistributionMetadata → Bool) → List DistributionMetadata → Option DistributionMetadata
  find_last p [] = none
  find_last p (x ∷ xs) = elim (find_last p xs) [
    | some y ↦ some y
    | none ↦ if p x then some x else none
  ]

  pub first_page_url : List DistributionMetadata → Option Url
  first_page_url [] = none
  first_page_url (x ∷ xs) = elim x.latest_page_url [
    | some url ↦ some url
    | none ↦ first_page_url xs
  ]

  pub not_found : Text → List DistributionMetadata → DistributionMetadata
  not_found id entries = record {
    script_id = none;
    latest_version = none;
    latest_url = none;
    latest_page_url = first_page_url entries;
    note = some (codes "distribution metadata for script id `" ++ id ++ codes "` was not found");
  }

  pub first_entry : List DistributionMetadata → ScriptMetaKitResult DistributionMetadata
  first_entry [] = err (parse (codes "missing SCRIPTMETA distribution fields"))
  first_entry (x ∷ xs) = ok x

  pub is_single : List DistributionMetadata → Bool
  is_single [] = false
  is_single (x ∷ []) = true
  is_single (x ∷ y ∷ xs) = false

  pub select_distribution_metadata_for_script :
      List DistributionMetadata → Text → ScriptMetaKitResult DistributionMetadata
  select_distribution_metadata_for_script entries id = elim (find_last (has_script_id id) entries) [
    | some entry ↦ ok entry
    | none ↦
        if is_single entries || all (λ entry. not (is_some entry.script_id)) entries
        then first_entry entries
        else ok (not_found id entries)
  ]
