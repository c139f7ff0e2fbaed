-- ===== src/Localization/Tags/Tests.antt =====
-- Tags at concrete inputs.
use scriptmetakit.Chars.Distinct.{first_appearances}
use scriptmetakit.Chars.Search.{strip_suffix, contains_text, is_ascii_whitespace}
use scriptmetakit.Chars.{
  Text, codes, text_eq, trim, trim_start, trim_end, is_whitespace, is_empty, is_ascii_alphabetic,
  is_ascii_alphanumeric, is_ascii_digit, to_ascii_lowercase, ascii_lower, strip_prefix,
}
use scriptmetakit.Errors.{ok}
use scriptmetakit.Localization.Tags.Merge.{
  trimmed, AllValid, normalize_metadata_tags-first_appearances,
}
use scriptmetakit.Localization.Tags.{
  key_byte, behind_language, separator_here, separator_at, item_separator, marker_key,
  is_block_marker, tag_break, inline_item, valid_trimmed, is_valid_metadata_tag,
  normalize_metadata_tags,
}
use scriptmetakit.Prelude.{List, [], ◌∷◌, ◌≡◌, refl}

abbrev values : List Text
values = codes " art " ∷ codes "Art" ∷ codes " " ∷ codes "art" ∷ []

values-AllValid : AllValid (trimmed values)
unfolding trim trim_start trim_end is_whitespace is_empty is_valid_metadata_tag valid_trimmed
    tag_break inline_item item_separator is_ascii_alphabetic key_byte is_ascii_alphanumeric
    is_ascii_digit behind_language separator_at separator_here is_ascii_whitespace
    to_ascii_lowercase ascii_lower contains_text strip_prefix is_block_marker marker_key
    strip_suffix text_eq
values-AllValid = (refl, (refl, (refl, tt)))

normalize_metadata_tags-first_appearances_example :
    normalize_metadata_tags values ≡ ok (first_appearances (trimmed values))
normalize_metadata_tags-first_appearances_example =
    normalize_metadata_tags-first_appearances values values-AllValid

abbrev reserved : Text
reserved = codes "Name[en]=Example"

abbrev merged : List Text
merged = codes "art" ∷ codes "Art" ∷ []

values-merged : normalize_metadata_tags values ≡ ok merged
unfolding trim trim_start trim_end is_whitespace is_empty first_appearances text_eq
values-merged = normalize_metadata_tags-first_appearances values values-AllValid
