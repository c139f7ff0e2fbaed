-- ===== src/Localization/Tags.antt =====
-- Metadata tags: `is_valid_metadata_tag` and `normalize_metadata_tags`.
pub mod Merge
mod Tests
use scriptmetakit.Chars.Distinct.{
  contains, push_new, push_all, first_appearances, push_all-first_appearances,
  first_appearances_idem, All-first_appearances,
}
use scriptmetakit.Chars.Search.{strip_suffix, contains_text, find_char, is_ascii_whitespace}
use scriptmetakit.Chars.Trim.{trim_idem}
use scriptmetakit.Chars.{
  Text, codes, trim, is_empty, is_ascii_alphabetic, is_ascii_alphanumeric, is_whitespace,
  to_ascii_lowercase,
}
use scriptmetakit.CustomMetadata.Keys.{has_custom_metadata_prefix}
use scriptmetakit.Errors.{ScriptMetaKitError, invalid_config, ScriptMetaKitResult, ok, err}
use scriptmetakit.Prelude.{
  ℕ, suc, ◌-◌, Bool, true, false, not, ◌&&◌, ◌||◌, List, [], ◌∷◌, ◌++◌, Option, none, some, ◌==◌,
  if◌then◌else◌, any, length, is_some, drop_while, drop, filter, map, ◌≡◌, refl, sym, ap, ◌∙◌,
  subst, All, Holds, Bool-cases, inl, inr, append-nil, arith,
}

-- `while index < bytes.len() && …`: the bytes of a key.
unfoldable pub key_byte : Bool → ℕ → Bool
key_byte custom c = is_ascii_alphanumeric c || c == b'-' || (c == b'.' && custom)

-- What follows the key's language in brackets; `none` is the early return.
unfoldable pub behind_language : Text → Option Text
behind_language [] = some []
behind_language (c ∷ s) =
    if c == b'['
    then elim (find_char b']' s) [
      | none ↦ none
      | some end ↦ if end == 0 then none else some (drop (suc end) s)
    ]
    else some (c ∷ s)

unfoldable pub separator_here : Text → Bool
separator_here [] = false
separator_here (c ∷ s) = c == b'=' || c == b':'

-- The index counts the characters in front of the separator.
unfoldable pub separator_at : Text → Text → Option ℕ
separator_at value rest =
    let behind = drop_while is_ascii_whitespace rest in
    if separator_here behind then some (length value - length behind) else none

unfoldable pub item_separator : Text → Option ℕ
item_separator [] = none
item_separator (c ∷ s) =
    if is_ascii_alphabetic c
    then elim (behind_language (drop_while (key_byte (has_custom_metadata_prefix (c ∷ s))) s)) [
      | none ↦ none
      | some rest ↦ separator_at (c ∷ s) rest
    ]
    else none

-- `lower.strip_suffix("-begin").or_else(|| lower.strip_suffix("-end"))`
unfoldable pub marker_key : Text → Option Text
marker_key lower = elim (strip_suffix lower (codes "-begin")) [
  | some key ↦ some key
  | none ↦ strip_suffix lower (codes "-end")
]

unfoldable pub is_block_marker : Text → Bool
is_block_marker value = elim (marker_key (to_ascii_lowercase value)) [
  | none ↦ false
  | some key ↦ is_some (item_separator (key ++ codes "="))
]

abbrev markers : List Text
markers =
    codes "scriptmeta-begin"
    ∷ codes "scriptmeta-end"
    ∷ codes "scriptmeta-dist-begin"
    ∷ codes "scriptmeta-dist-end"
    ∷ []

tag_break : ℕ → Bool
tag_break c = c == b',' || c == 0xd || c == 0xa

-- An item starts at the front or behind white space.
inline_item : Bool → Text → Bool
inline_item at_start [] = false
inline_item at_start (c ∷ s) =
    at_start && is_some (item_separator (c ∷ s)) || inline_item (is_whitespace c) s

valid_trimmed : Text → Bool
valid_trimmed value =
    if is_empty value || any tag_break value
    then false
    else if any (contains_text (to_ascii_lowercase value)) markers || is_block_marker value
    then false
    else not (inline_item true value)

pub is_valid_metadata_tag : Text → Bool
is_valid_metadata_tag value = valid_trimmed (trim value)

pub reserved_tag : Text → ScriptMetaKitError
reserved_tag value = invalid_config (codes "reserved or invalid Tags value: " ++ value)

-- `if seen.insert(value) { result.push(value) }`: `seen` holds what `result` holds.
add_tags : List Text → List Text → ScriptMetaKitResult (List Text)
add_tags result [] = ok result
add_tags result (value ∷ values) = elim (is_empty (trim value)) [
  | true ↦ add_tags result values
  | false ↦ elim (is_valid_metadata_tag (trim value)) [
    | false ↦ err (reserved_tag (trim value))
    | true ↦ add_tags (push_new (trim value) result) values
  ]
]

pub normalize_metadata_tags : List Text → ScriptMetaKitResult (List Text)
normalize_metadata_tags values = add_tags [] values
