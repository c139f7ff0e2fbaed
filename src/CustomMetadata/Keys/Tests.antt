-- ===== src/CustomMetadata/Keys/Tests.antt =====
-- A key of custom metadata, and the theorems on keys applied to it.
use scriptmetakit.Chars.Search.{split, split_once, any_window, consed}
use scriptmetakit.Chars.{
  Text, codes, eq_ignore_ascii_case, to_ascii_lowercase, ascii_lower, text_eq, is_empty,
  is_ascii_alphanumeric, is_ascii_alphabetic, is_ascii_digit,
}
use scriptmetakit.CustomMetadata.Keys.{
  normalize_custom_metadata_key, valid_key, contains_reserved_marker, has_custom_metadata_prefix,
  valid_parts, creator_part, first_alphanumeric, last_alphanumeric, field_byte,
}
use scriptmetakit.Errors.{ok}
use scriptmetakit.Prelude.{◌≡◌, refl}

abbrev pub mixed : Text
mixed = codes "x-Acme.Tools-Build"

abbrev pub upper : Text
upper = codes "X-ACME.TOOLS-BUILD"

abbrev pub normal : Text
normal = codes "X-acme.tools-build"

pub mixed-normal : normalize_custom_metadata_key mixed ≡ ok normal
unfolding normalize_custom_metadata_key valid_key contains_reserved_marker
    has_custom_metadata_prefix valid_parts creator_part first_alphanumeric last_alphanumeric
    field_byte split split_once any_window consed eq_ignore_ascii_case to_ascii_lowercase
    ascii_lower text_eq is_empty is_ascii_alphanumeric is_ascii_alphabetic is_ascii_digit
mixed-normal = refl
