-- ===== src/Sections/Project.antt =====
-- `MetadataSections::project`, `editing_extensions` and `is_structurally_complete`.
use scriptmetakit.Chars.{Text, codes, trim, is_empty, text_eq}
use scriptmetakit.Errors.{ok, err}
use scriptmetakit.Localization.Description.{Translations, description_translations}
use scriptmetakit.Localization.Diagnostics.{MetadataDiagnostic, diagnostic}
use scriptmetakit.Localization.Preferences.{LanguageTags, normalize_language_tag}
use scriptmetakit.Localization.Select.{Selected, select_text}
use scriptmetakit.Localization.Tags.{is_valid_metadata_tag}
use scriptmetakit.Prelude.{
  Bool, true, false, not, ◌&&◌, ◌||◌, List, [], ◌∷◌, ◌++◌, Option, none, some, if◌then◌else◌,
  is_some, any,
}
use scriptmetakit.Sections.Scalars.{scalar_values}
use scriptmetakit.Sections.{ScalarValue, CustomMetadataFields, MetadataSections}

unfoldable pub is_structurally_complete : MetadataSections → Bool
is_structurally_complete s = not (
    any
      (λ d.
        text_eq d.code (codes "unclosed_description")
        || text_eq d.code (codes "repeated_description_block"))
      s.diagnostics)

pub record MetadataEditExtensions : Type 0 where
  pub default_language : Option Text
  pub names : Translations
  pub authors : Translations
  pub tags : List Text

pub record MetadataPresentation : Type 0 where
  pub custom_fields : CustomMetadataFields
  pub default_language : Option Text
  pub name_language : Option Text
  pub author_language : Option Text
  pub description_language : Option Text
  pub tags : List Text
  pub diagnostics : List MetadataDiagnostic

-- `project`, with the variables that it computes one after the other. The texts are the name, the
-- author and the description.
pub record Projection : Type 0 where
  pub name : Option Text
  pub author : Option Text
  pub description : Option Text
  pub presentation : MetadataPresentation

unfoldable pub issue : Text → Text → Option Text → List MetadataDiagnostic → List MetadataDiagnostic
issue code field language diagnostics = diagnostic diagnostics code field language none

-- A name or an author has a language.
unfoldable pub any_language : MetadataSections → Bool
any_language s = any (λ v. is_some v.language) (s.names ++ s.authors)

-- The valid tags, and an issue for each other tag.
unfoldable pub project_tags :
    List Text → List Text → List MetadataDiagnostic → List Text × List MetadataDiagnostic
project_tags kept [] diagnostics = (kept, diagnostics)
project_tags kept (value ∷ rest) diagnostics =
    if is_valid_metadata_tag value
    then project_tags (kept ++ value ∷ []) rest diagnostics
    else project_tags kept rest (issue (codes "invalid_tag") (codes "Tags") none diagnostics)

-- `name_default.as_deref().is_none_or(|name| name.trim().is_empty())`
unfoldable pub lacks_name : Option Text → Bool
lacks_name none = true
lacks_name (some name) = is_empty (trim name)

unfoldable pub note_missing_name :
    MetadataSections → Option Text → List MetadataDiagnostic → List MetadataDiagnostic
note_missing_name s name_default diagnostics =
    if (is_some s.default_language || any_language s) && lacks_name name_default
    then issue (codes "missing_name") (codes "Name") none diagnostics
    else diagnostics

unfoldable pub or_else : Option Text → Option Text → Option Text
or_else (some value) other = some value
or_else none other = other

unfoldable pub note_unavailable :
    Selected → Translations → List MetadataDiagnostic → List MetadataDiagnostic
note_unavailable (some text, language) values diagnostics = diagnostics
note_unavailable (none, language) [] diagnostics = diagnostics
note_unavailable (none, language) (value ∷ values) diagnostics =
    issue (codes "description_unavailable") (codes "Description") none diagnostics

module _ (language_tags : LanguageTags) where
  -- The default language in its canonical form, and the issue that it is invalid or missing.
  unfoldable pub project_language : MetadataSections → Option Text × List MetadataDiagnostic
  project_language s = elim s.default_language [
    | some raw ↦ elim (normalize_language_tag language_tags raw) [
      | ok value ↦ (some value, s.diagnostics)
      | err error ↦ (
        none,
        issue (codes "invalid_language") (codes "Meta-Default-language") (some raw) s.diagnostics,
      )
    ]
    | none ↦
        if any_language s
        then (
          none,
          issue (codes "missing_default_language") (codes "Meta-Default-language") none
              s.diagnostics,
        )
        else (none, s.diagnostics)
  ]

  unfoldable pub scalars :
      Bool
      → Option Text
      → Text
      → List ScalarValue
      → Option Text
      → List MetadataDiagnostic
      → Option Text × Translations × List MetadataDiagnostic
  scalars has_extensions default_language field entries legacy diagnostics =
      if has_extensions
      then scalar_values language_tags default_language field false entries legacy diagnostics
      else (legacy, [], diagnostics)

  -- The selected description, and the diagnostics.
  unfoldable pub project_description :
      Option Text
      → Option Text
      → List Text
      → List MetadataDiagnostic
      → Selected × List MetadataDiagnostic
  project_description none default_language preferences diagnostics = ((none, none), diagnostics)
  project_description (some raw) default_language preferences diagnostics =
      let translated = description_translations language_tags raw default_language diagnostics in
      elim translated.0 [
        | none ↦ (select_text (some raw) [] default_language preferences, translated.1)
        | some values ↦
            let selected = select_text none values default_language preferences in
            (selected, note_unavailable selected values translated.1)
      ]

  unfoldable pub project :
      MetadataSections → Option Text → Option Text → Option Text → List Text → Projection
  project s legacy_name legacy_author legacy_description preferences =
      let language = project_language s in
      let kept = project_tags [] s.tags language.1 in
      let names = scalars s.has_extensions language.0 (codes "Name") s.names legacy_name kept.1 in
      let authors =
        scalars s.has_extensions language.0 (codes "Author") s.authors legacy_author names.2 in
      let name = select_text names.0 names.1 language.0 preferences in
      let author = select_text authors.0 authors.1 language.0 preferences in
      let description =
        project_description (or_else s.raw_description legacy_description) language.0 preferences
          (note_missing_name s names.0 authors.2) in
      record {
        name = name.0;
        author = author.0;
        description = description.0.0;
        presentation = record {
          custom_fields = [];
          default_language = language.0;
          name_language = name.1;
          author_language = author.1;
          description_language = description.0.1;
          tags = kept.0;
          diagnostics = description.1;
        };
      }

  unfoldable pub canonical : Option Text → Option Text
  canonical none = none
  canonical (some value) = elim (normalize_language_tag language_tags value) [
    | ok language ↦ some language
    | err error ↦ none
  ]

  unfoldable pub edit_extensions :
      MetadataSections
      → Option Text
      → Option Text
      → Option Text × Option Text × Option MetadataEditExtensions
  edit_extensions s legacy_name legacy_author =
      let language = canonical s.default_language in
      let names = scalar_values language_tags language (codes "Name") true s.names legacy_name [] in
      let authors =
        scalar_values language_tags language (codes "Author") true s.authors legacy_author [] in
      (
        names.0,
        authors.0,
        some (record {
          default_language = or_else language s.default_language;
          names = names.1;
          authors = authors.1;
          tags = s.tags;
        }),
      )

  unfoldable pub editing_extensions :
      MetadataSections
      → Option Text
      → Option Text
      → Option Text × Option Text × Option MetadataEditExtensions
  editing_extensions s legacy_name legacy_author =
      if s.has_extensions
      then edit_extensions s legacy_name legacy_author
      else (legacy_name, legacy_author, none)
