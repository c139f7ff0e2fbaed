-- ===== src/Sections/Scalars.antt =====
-- `scalar_values`: the names, or the authors, in the languages that they are given in.
use scriptmetakit.Chars.{Text, codes, trim, is_empty, text_eq}
use scriptmetakit.Errors.{ok, err}
use scriptmetakit.Localization.Description.{Translations, entry, put, append_value}
use scriptmetakit.Localization.Diagnostics.{MetadataDiagnostic, diagnostic}
use scriptmetakit.Localization.Preferences.{LanguageTags, normalize_language_tag}
use scriptmetakit.Localization.Select.{get, nonblank}
use scriptmetakit.Prelude.{
  Bool, true, false, not, ◌&&◌, ◌||◌, List, [], ◌∷◌, ◌++◌, Option, none, some, if◌then◌else◌,
  is_some, all, filter,
}
use scriptmetakit.Sections.{ScalarValue}

-- The variables that the function changes.
pub record Scalars : Type 0 where
  pub values : Translations
  pub plain : Text
  pub has_plain : Bool
  pub diagnostics : List MetadataDiagnostic

-- The legacy value, for entries that all have a language.
unfoldable pub with_legacy : Option Text → Option Text → List MetadataDiagnostic → Scalars
with_legacy none default_language diagnostics = record {
  values = [];
  plain = [];
  has_plain = false;
  diagnostics = diagnostics;
}
with_legacy (some value) (some language) diagnostics = record {
  values = (language, value) ∷ [];
  plain = [];
  has_plain = true;
  diagnostics = diagnostics;
}
with_legacy (some value) none diagnostics = record {
  values = [];
  plain = value;
  has_plain = true;
  diagnostics = diagnostics;
}

unfoldable pub legacy_of : List ScalarValue → Option Text → Option Text
legacy_of entries legacy_default =
    if all (λ e. is_some e.language) entries then nonblank legacy_default else none

-- The text of an entry, or of the plain value.
unfoldable pub target_of : Option Text → Scalars → Text
target_of none s = s.plain
target_of (some language) s = entry s.values language

unfoldable pub set_target : Option Text → Text → Scalars → Scalars
set_target none text s = record s { plain = text }
set_target (some language) text s = record s { values = put language text s.values }

unfoldable pub joined : Bool → Text → Text → Text
joined for_editing target value =
    if for_editing
    then (if not (is_empty target) && not (is_empty value) then target ++ codes " " else target)
      ++ value
    else append_value target (trim value) (codes " ")

unfoldable pub note_joined : Text → Option Text → ScalarValue → Scalars → Scalars
note_joined field language e s = if is_empty (target_of language s) then s else record s {
  diagnostics =
      diagnostic s.diagnostics (codes "repeated_language_joined") field language (some e.line);
}

unfoldable pub add_value : Text → Bool → Option Text → ScalarValue → Scalars → Scalars
add_value field for_editing language e s =
    set_target language (joined for_editing (target_of language s) e.value)
      (note_joined field language e s)

unfoldable pub note_invalid : Text → Text → ScalarValue → Scalars → Scalars
note_invalid field raw e s = record s {
  diagnostics = diagnostic s.diagnostics (codes "invalid_language") field (some raw) (some e.line);
}

unfoldable pub drop_entry : Text → Translations → Translations
drop_entry language [] = []
drop_entry language ((key, value) ∷ rest) =
    let later = drop_entry language rest in
    if text_eq key language then later else (key, value) ∷ later

unfoldable pub default_value : Bool → Option Text → Scalars → Option Text
default_value for_editing default_language s =
    if s.has_plain
    then elim default_language [
      | some language ↦ get s.values language
      | none ↦ if for_editing || not (is_empty s.plain) then some s.plain else none
    ]
    else none

-- `values.remove(language)`
unfoldable pub other_values : Option Text → Scalars → Translations
other_values none s = s.values
other_values (some language) s = if s.has_plain then drop_entry language s.values else s.values

-- `filter(|entry| for_editing || !entry.value.trim().is_empty())`
unfoldable pub read_entries : Bool → List ScalarValue → List ScalarValue
read_entries for_editing entries =
    filter (λ e. for_editing || not (is_empty (trim e.value))) entries

module _ (tags : LanguageTags) (default_language : Option Text) (field : Text)
    (for_editing : Bool) where
  unfoldable pub in_language : Text → ScalarValue → Scalars → Scalars
  in_language raw e s = elim (normalize_language_tag tags raw) [
    | ok language ↦ add_value field for_editing (some language) e s
    | err error ↦
        if for_editing
        then add_value field for_editing (some raw) e (note_invalid field raw e s)
        else note_invalid field raw e s
  ]

  -- The body of the loop.
  unfoldable pub add_entry : ScalarValue → Scalars → Scalars
  add_entry e s = elim e.language [
    | some raw ↦ in_language raw e s
    | none ↦ add_value field for_editing default_language e (record s { has_plain = true })
  ]

  unfoldable pub add_entries : List ScalarValue → Scalars → Scalars
  add_entries [] s = s
  add_entries (e ∷ rest) s = add_entries rest (add_entry e s)

  unfoldable pub collected : List ScalarValue → Option Text → List MetadataDiagnostic → Scalars
  collected entries legacy_default diagnostics =
      add_entries (read_entries for_editing entries)
        (with_legacy (legacy_of entries legacy_default) default_language diagnostics)

  -- The default value, the map, and the diagnostics.
  unfoldable pub scalar_values :
      List ScalarValue
      → Option Text
      → List MetadataDiagnostic
      → Option Text × Translations × List MetadataDiagnostic
  scalar_values entries legacy_default diagnostics =
      let s = collected entries legacy_default diagnostics in
      (default_value for_editing default_language s, other_values default_language s, s.diagnostics)
