-- ===== src/CustomMetadata/Keys.antt =====
-- `valid_key` and `normalize_custom_metadata_key`.
pub mod Lowering
pub mod Normal
pub mod Tests
use scriptmetakit.Chars.Search.{split, split_once, any_window}
use scriptmetakit.Chars.{
  Text, codes, is_ascii_alphanumeric, eq_ignore_ascii_case, to_ascii_lowercase, is_empty,
}
use scriptmetakit.Errors.{invalid_config, ScriptMetaKitResult, ok, err}
use scriptmetakit.Prelude.{
  ℕ, Bool, true, false, not, ◌&&◌, ◌||◌, List, [], ◌∷◌, ◌++◌, Option, none, some, ◌==◌,
  if◌then◌else◌, any, all, take, drop,
}

-- `value.get(..2)` is not there or is another text, if a character of it is not ASCII.
unfoldable pub has_custom_metadata_prefix : Text → Bool
has_custom_metadata_prefix value = eq_ignore_ascii_case (take 2 value) (codes "X-")

unfoldable pub creator_part : Text → Bool
creator_part part = not (is_empty part) && all is_ascii_alphanumeric part

unfoldable pub first_alphanumeric : Text → Bool
first_alphanumeric [] = false
first_alphanumeric (c ∷ s) = is_ascii_alphanumeric c

unfoldable pub last_alphanumeric : Text → Bool
last_alphanumeric [] = false
last_alphanumeric (c ∷ []) = is_ascii_alphanumeric c
last_alphanumeric (c ∷ d ∷ s) = last_alphanumeric (d ∷ s)

unfoldable pub field_byte : ℕ → Bool
field_byte c = is_ascii_alphanumeric c || c == b'-'

unfoldable pub valid_parts : Text × Text → Bool
valid_parts (creator, field) =
    all creator_part (split b'.' creator)
    && first_alphanumeric field
    && last_alphanumeric field
    && all field_byte field

unfoldable pub valid_key : Text → Bool
valid_key key =
    if has_custom_metadata_prefix key
    then elim (split_once b'-' (drop 2 key)) [ none ↦ false | some parts ↦ valid_parts parts ]
    else false

abbrev reserved_markers : List Text
reserved_markers =
    codes "SCRIPTMETA-BEGIN"
    ∷ codes "SCRIPTMETA-END"
    ∷ codes "SCRIPTMETA-DIST-BEGIN"
    ∷ codes "SCRIPTMETA-DIST-END"
    ∷ codes "Description-BEGIN"
    ∷ codes "Description-END"
    ∷ []

unfoldable pub contains_reserved_marker : Text → Bool
contains_reserved_marker value = any (any_window value) reserved_markers

unfoldable pub normalize_custom_metadata_key : Text → ScriptMetaKitResult Text
normalize_custom_metadata_key key =
    if not (valid_key key) || contains_reserved_marker key
    then err (invalid_config (codes "invalid custom metadata key `" ++ key ++ codes "`"))
    else ok (codes "X-" ++ to_ascii_lowercase (drop 2 key))
