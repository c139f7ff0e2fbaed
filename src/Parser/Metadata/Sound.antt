-- ===== src/Parser/Metadata/Sound.antt =====
-- What holds of every metadata that `parse_script_metadata_with_options` returns.
use scriptmetakit.Chars.{Text, codes}
use scriptmetakit.CustomMetadata.Selection.{CustomMetadataSelection}
use scriptmetakit.Errors.{ok, ok_inj, Result-cases}
use scriptmetakit.Localization.Diagnostics.{MetadataDiagnostic}
use scriptmetakit.Localization.Preferences.{LanguageTags}
use scriptmetakit.Localization.Tags.{is_valid_metadata_tag}
use scriptmetakit.Parser.Blocks.{script_metadata_body}
use scriptmetakit.Parser.Distribution.{optional_version_value, optional_url_value}
use scriptmetakit.Parser.Metadata.{
  ParserOptions, required, ScriptMetadata, metadata_from, project_sections, metadata_of_sections,
  parse_script_metadata_with_options,
}
use scriptmetakit.Parser.Script.{ScriptMetadataFields, parse_script_metadata_fields}
use scriptmetakit.Parser.Urls.Accepted.{IsUsable, normalize_metadata_url-IsUsable}
use scriptmetakit.Parser.Urls.{UrlCrate, normalize_metadata_url}
use scriptmetakit.Prelude.{
  List, [], ◌∷◌, ◌++◌, Option, none, some, All, All-concat, Holds, ◌≡◌, refl, sym, subst,
  Bool-cases, Option-cases, inl, inr,
}
use scriptmetakit.Sections.Project.{MetadataPresentation, Projection, project, project_tags}
use scriptmetakit.Sections.WellFormed.{
  IsCustomField, IsWellFormed, metadata_sections_with_custom_fields-IsWellFormed,
}
use scriptmetakit.Sections.{MetadataSections}
use scriptmetakit.Version.Normalize.{normalize_version_string_idem}
use scriptmetakit.Version.{normalize_version_string}

-- A version is left out or normalised.
abbrev pub IsNormal : Option Text → Type 0
IsNormal none = Unit
IsNormal (some version) = normalize_version_string version ≡ some version

abbrev pub HasUsable : (crate : UrlCrate) → Option crate.Url → Type 0
HasUsable crate none = Unit
HasUsable crate (some url) = IsUsable crate url

optional_version_value-IsNormal :
    (value result : Option Text) → optional_version_value value ≡ ok result → IsNormal result
unfolding optional_version_value
optional_version_value-IsNormal none result h = subst IsNormal (ok_inj h) tt
optional_version_value-IsNormal (some value) result h =
    elim (Option-cases (normalize_version_string value)) [
      | inl e ↦ let q = (rw (e, optional_version_value) at h) in cc
      | inr (version, e) ↦
          subst IsNormal (ok_inj (rw (e, optional_version_value) at h))
            (normalize_version_string_idem value version e)
    ]

optional_url_value-HasUsable :
    (crate : UrlCrate) (value : Option Text) (result : Option crate.Url)
    → optional_url_value crate value ≡ ok result
    → HasUsable crate result
unfolding optional_url_value
optional_url_value-HasUsable crate none result h = subst (HasUsable crate) (ok_inj h) tt
optional_url_value-HasUsable crate (some value) result h =
    elim (Option-cases (normalize_metadata_url crate value)) [
      | inl e ↦ let q = (rw (e, optional_url_value) at h) in cc
      | inr (url, e) ↦
          subst (HasUsable crate) (ok_inj (rw (e, optional_url_value) at h))
            (normalize_metadata_url-IsUsable crate value url e)
    ]

project_tags-valid :
    (kept values : List Text) (diagnostics : List MetadataDiagnostic)
    → All (Holds is_valid_metadata_tag) kept
    → All (Holds is_valid_metadata_tag) (project_tags kept values diagnostics).0
unfolding project_tags
project_tags-valid kept [] diagnostics h = h
project_tags-valid kept (value ∷ rest) diagnostics h =
    elim (Bool-cases (is_valid_metadata_tag value)) [
      | inl e ↦
          rw (e, project_tags)
            (project_tags-valid (kept ++ value ∷ []) rest diagnostics
              (All-concat (Holds is_valid_metadata_tag) kept value h e))
      | inr e ↦ rw (e, project_tags) (project_tags-valid kept rest _ h)
    ]

-- The presentation: its custom fields are selected ones without an issue, its tags are valid.
abbrev pub IsPresented : CustomMetadataSelection → MetadataPresentation → Type 0
IsPresented keys p =
    All (IsCustomField keys) p.custom_fields × All (Holds is_valid_metadata_tag) p.tags

module _ (crate : UrlCrate) where
  -- The versions are normalised, and the URLs have a host or are those of files.
  abbrev pub IsChecked : ScriptMetadata crate → Type 0
  IsChecked m =
      IsNormal m.version
      × IsNormal m.latest_version
      × HasUsable crate m.meta_url
      × HasUsable crate m.latest_url
      × HasUsable crate m.latest_page_url

  metadata_from-IsChecked :
      (script_id : Text) (fields : ScriptMetadataFields) (p : Projection) (m : ScriptMetadata crate)
      → metadata_from crate script_id fields p ≡ ok m
      → IsChecked m × (m.presentation ≡ p.presentation)
  unfolding metadata_from
  metadata_from-IsChecked script_id fields p m h =
      elim (Result-cases (optional_version_value fields.version)) [
        | inr (x, e) ↦ let q = (rw (e, metadata_from) at h) in cc
        | inl (version, e) ↦ elim (Result-cases (optional_url_value crate fields.meta_url)) [
          | inr (x, f) ↦ let q = (rw (e, f, metadata_from) at h) in cc
          | inl (meta, f) ↦ elim (Result-cases (optional_url_value crate fields.latest_url)) [
            | inr (x, g) ↦ let q = (rw (e, f, g, metadata_from) at h) in cc
            | inl (latest, g) ↦ elim (Result-cases (optional_version_value fields.latest_version)) [
              | inr (x, k) ↦ let q = (rw (e, f, g, k, metadata_from) at h) in cc
              | inl (newest, k) ↦
                  elim (Result-cases (optional_url_value crate fields.latest_page_url)) [
                    | inr (x, l) ↦ let q = (rw (e, f, g, k, l, metadata_from) at h) in cc
                    | inl (page, l) ↦
                        subst (λ m. IsChecked m × (m.presentation ≡ p.presentation))
                          (ok_inj (rw (e, f, g, k, l, metadata_from) at h))
                          (
                            (
                              optional_version_value-IsNormal _ version e,
                              optional_version_value-IsNormal _ newest k,
                              optional_url_value-HasUsable crate _ meta f,
                              optional_url_value-HasUsable crate _ latest g,
                              optional_url_value-HasUsable crate _ page l,
                            ),
                            refl,
                          )
                  ]
            ]
          ]
        ]
      ]

module _ (crate : UrlCrate) (tags : LanguageTags) where
  project_sections-IsPresented :
      (keys : CustomMetadataSelection) (s : MetadataSections) (fields : ScriptMetadataFields)
      (preferences : List Text)
      → IsWellFormed keys s
      → IsPresented keys (project_sections crate tags s fields preferences).presentation
  unfolding project_sections project
  project_sections-IsPresented keys s fields preferences h =
      (h.0, project_tags-valid [] s.tags _ tt)

  metadata_of_sections-IsChecked :
      (keys : CustomMetadataSelection) (s : MetadataSections) (preferences : List Text)
      (m : ScriptMetadata crate)
      → IsWellFormed keys s
      → metadata_of_sections crate tags s preferences ≡ ok m
      → IsChecked crate m × IsPresented keys m.presentation
  unfolding metadata_of_sections
  metadata_of_sections-IsChecked keys s preferences m h k =
      let fields = parse_script_metadata_fields s.legacy_body in
      elim (Result-cases
        (required fields.script_id (codes "missing required SCRIPTMETA field `script-id`"))) [
          | inr (x, e) ↦ let q = (rw (e, metadata_of_sections) at k) in cc
          | inl (script_id, e) ↦
              let made =
                metadata_from-IsChecked crate script_id fields _ m
                  (rw (e, metadata_of_sections) at k) in
              (
                made.0,
                subst (IsPresented keys) (sym made.1)
                    (project_sections-IsPresented keys s fields preferences h),
              )
        ]

  -- In the metadata of a script the versions are normalised, every URL has a host or is that of a
  -- file with a path, the custom fields are those that the consumer selected and that have no issue,
  -- under their canonical keys, and the tags are valid.
  pub parse_script_metadata_with_options-IsChecked :
      (text : Text) (options : ParserOptions) (m : ScriptMetadata crate)
      → parse_script_metadata_with_options crate tags text options ≡ ok m
      → IsChecked crate m × IsPresented options.custom_metadata_keys m.presentation
  unfolding parse_script_metadata_with_options
  parse_script_metadata_with_options-IsChecked text options m h =
      elim (Result-cases (
        required (script_metadata_body text options.require_closed_block)
          (codes "missing SCRIPTMETA block"))) [
            | inr (x, e) ↦ let q = (rw (e, parse_script_metadata_with_options) at h) in cc
            | inl (body, e) ↦
                metadata_of_sections-IsChecked options.custom_metadata_keys _
                  options.preferred_languages m
                  (metadata_sections_with_custom_fields-IsWellFormed options.custom_metadata_keys
                    body)
                  (rw (e, parse_script_metadata_with_options) at h)
          ]
