-- ===== src/Localization/Description.antt =====
-- The translations inside a description, of src/core/localization.rs, and `normalized_newlines` of
-- src/core/text.rs. A map is the list of its entries.
pub mod Escapes
pub mod Entries
pub mod Newlines
mod Tests
use scriptmetakit.Chars.Lines.{lines, join_lines}
use scriptmetakit.Chars.Search.{split_once}
use scriptmetakit.Chars.{
  Text, codes, trim, trim_start, is_empty, is_ascii_alphabetic, is_ascii_alphanumeric, text_eq,
}
use scriptmetakit.Errors.{ScriptMetaKitResult, ok, err}
use scriptmetakit.Localization.Diagnostics.{MetadataDiagnostic, diagnostic}
use scriptmetakit.Localization.Preferences.{LanguageTags, normalize_language_tag}
use scriptmetakit.Prelude.{
  ℕ, Bool, true, false, not, ◌&&◌, ◌||◌, List, [], ◌∷◌, ◌++◌, Option, none, some, ◌==◌,
  if◌then◌else◌, all, any, drop_while, is_some,
}

-- `normalized_newlines`; the flag is set behind a `\r`, whose `\n` is skipped.
unfoldable pub newlines : Bool → Text → Text
newlines after_cr [] = []
newlines after_cr (c ∷ s) =
    let skipped = newlines false s in
    let started = newlines true s in
    if c == 0xd then 0xa ∷ started else if after_cr && c == 0xa then skipped else c ∷ skipped

unfoldable pub normalized_newlines : Text → Text
normalized_newlines text = newlines false text

-- `trim_matches('\n')`.
strip_end : Text → Text
strip_end [] = []
strip_end (c ∷ s) = let kept = strip_end s in if c == 0xa && is_empty kept then [] else c ∷ kept

trim_newlines : Text → Text
trim_newlines text = strip_end (drop_while (λ c. c == 0xa) text)

pub append_value : Text → Text → Text → Text
append_value target value separator =
    if is_empty (trim value)
    then target
    else if is_empty target
    then value
    else target ++ separator ++ value

-- `matches!(next, '[' | ']' | '\\')`
abbrev pub is_escapable : ℕ → Bool
is_escapable c = c == b'[' || c == b']' || c == 0x5c

-- `chars.peek().is_some_and(…)`
escapes : Text → Bool
escapes [] = false
escapes (next ∷ s) = is_escapable next

-- The flag is set behind a backslash that escapes the next character, which is then kept.
unescape : Bool → Text → Text
unescape escaped [] = []
unescape escaped (c ∷ s) =
    let plain = unescape false s in
    let behind = unescape true s in
    if not escaped && c == 0x5c && escapes s then behind else c ∷ plain

pub unescape_description : Text → Text
unescape_description value = unescape false value

language_byte : ℕ → Bool
language_byte c = is_ascii_alphanumeric c || c == b'-'

language_text : Text → Bool
language_text [] = false
language_text (c ∷ s) = is_ascii_alphabetic c && all language_byte (c ∷ s)

label_in : Text → Option (Text × Text)
label_in rest = elim (split_once b']' rest) [
  | none ↦ none
  | some (language, value) ↦ if language_text language then some (language, value) else none
]

pub description_label : Text → Option (Text × Text)
description_label [] = none
description_label (c ∷ rest) = if c == b'[' then label_in rest else none

abbrev pub Translations : Type 0
Translations = List (Text × Text)

-- `result.entry(language).or_default()`, read and written.
pub entry : Translations → Text → Text
entry [] language = []
entry ((key, value) ∷ rest) language = if text_eq key language then value else entry rest language

pub put : Text → Text → Translations → Translations
put language value [] = (language, value) ∷ []
put language value ((key, old) ∷ rest) =
    let later = put language value rest in
    if text_eq key language then (key, value) ∷ rest else (key, old) ∷ later

-- The variables that `flush` changes.
pub record Sections : Type 0 where
  pub result : Translations
  pub diagnostics : List MetadataDiagnostic

report_repeated : Text → Text → List MetadataDiagnostic → List MetadataDiagnostic
report_repeated target language diagnostics =
    if is_empty target
    then diagnostics
    else diagnostic diagnostics (codes "repeated_language_joined") (codes "Description")
        (some language) none

add_body : Text → Text → Sections → Sections
add_body language body s = if is_empty (trim body) then s else record {
  result = put language (append_value (entry s.result language) body (0xa ∷ 0xa ∷ [])) s.result;
  diagnostics = report_repeated (entry s.result language) language s.diagnostics;
}

pub flush : Text → List Text → Sections → Sections
flush language pending s =
    add_body language (unescape_description (trim_newlines (join_lines pending))) s

module _ (tags : LanguageTags) where
  canonical_label : Text × Text → Option (Text × Text)
  canonical_label (raw_language, value) = elim (normalize_language_tag tags raw_language) [
    | ok language ↦ some (language, value)
    | err error ↦ none
  ]

  -- A line that is a boundary: its language and what follows on the line.
  pub boundary : Text → Option (Text × Text)
  boundary line = elim (description_label (trim_start line)) [
    | none ↦ none
    | some label ↦ canonical_label label
  ]

  -- The loop over the lines, with `current` and the pending `lines`.
  pub collect_sections : Text → List Text → Sections → List Text → Sections
  collect_sections current pending s [] = flush current pending s
  collect_sections current pending s (line ∷ rest) = elim (boundary line) [
    | none ↦ collect_sections current (pending ++ line ∷ []) s rest
    | some (language, value) ↦
        collect_sections language (if is_empty value then [] else value ∷ [])
          (flush current pending s) rest
  ]

  canonical_default : Option Text → Option Text
  canonical_default none = none
  canonical_default (some value) = elim (normalize_language_tag tags value) [
    | ok language ↦ some language
    | err error ↦ none
  ]

  -- The map, if there is one, and the diagnostics.
  pub description_translations :
      Text → Option Text → List MetadataDiagnostic → Option Translations × List MetadataDiagnostic
  description_translations body default_language diagnostics =
      let body_lines = lines (normalized_newlines body) in
      elim (canonical_default default_language) [
        | none ↦ (none, diagnostics)
        | some language ↦
            if any (λ line. is_some (boundary line)) body_lines
            then (let s =
                  collect_sections language [] (record { result = []; diagnostics = diagnostics })
                    body_lines in
                (some s.result, s.diagnostics))
            else (none, diagnostics)
      ]
