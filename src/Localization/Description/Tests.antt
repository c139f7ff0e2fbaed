-- ===== src/Localization/Description/Tests.antt =====
-- A description in two languages, and the theorems at concrete inputs.
use scriptmetakit.Chars.Search.{split_once, consed}
use scriptmetakit.Chars.{
  codes, text_eq, eq_ignore_ascii_case, to_ascii_lowercase, ascii_lower, trim, trim_start, trim_end,
  is_whitespace, is_empty, is_ascii_alphabetic, is_ascii_alphanumeric, is_ascii_digit,
}
use scriptmetakit.Chars.Lines.{lines, join_lines}
use scriptmetakit.Localization.Description.Entries.{IsEntry, description_translations-IsEntry}
use scriptmetakit.Localization.Description.{
  Translations, description_translations, canonical_default, collect_sections, boundary,
  canonical_label, flush, add_body, report_repeated, put, entry, description_label, label_in,
  language_text, language_byte, unescape_description, unescape, escapes, append_value,
  trim_newlines, strip_end, newlines, normalized_newlines,
}
use scriptmetakit.Localization.Preferences.Tests.{toy}
use scriptmetakit.Localization.Preferences.{normalize_language_tag}
use scriptmetakit.Prelude.{[], ◌∷◌, ◌++◌, All, some, ◌≡◌, refl}

abbrev found : Translations
found = (codes "ja", codes "x") ∷ (codes "en", codes " y") ∷ []

two_languages :
    (description_translations toy (codes "[ja]x" ++ 0xd ∷ codes "[EN] y") (some (codes "en")) []).0
    ≡ some found
unfolding description_translations canonical_default collect_sections boundary canonical_label flush
    add_body report_repeated put entry description_label label_in language_text language_byte
    unescape_description unescape escapes append_value trim_newlines strip_end join_lines lines
    newlines normalized_newlines normalize_language_tag split_once consed text_eq
    eq_ignore_ascii_case to_ascii_lowercase ascii_lower trim trim_start trim_end is_whitespace
    is_empty is_ascii_alphabetic is_ascii_alphanumeric is_ascii_digit
two_languages = refl

description_translations-IsEntry_example : All (IsEntry toy) found
description_translations-IsEntry_example =
    description_translations-IsEntry toy (codes "[ja]x" ++ 0xd ∷ codes "[EN] y") (some (codes "en"))
      [] found two_languages
