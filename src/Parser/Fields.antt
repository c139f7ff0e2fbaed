-- ===== src/Parser/Fields.antt =====
-- The fields of a line: `split_key_value`, `try_for_each_metadata_field` and what they call.
pub mod Spaces
pub mod Rendered
mod Tests
use scriptmetakit.Chars.{Text, codes, trim, is_whitespace, eq_ignore_ascii_case, is_empty}
use scriptmetakit.Parser.Blocks.{starts_with_marker}
use scriptmetakit.Prelude.{
  ℕ, ◌-◌, Bool, true, false, not, ◌&&◌, ◌||◌, List, [], ◌∷◌, ◌++◌, Option, none, some, ◌==◌,
  if◌then◌else◌, is_some, length, take, drop,
}

abbrev pub script_metadata_keys : List Text
script_metadata_keys =
    codes "Script-ID"
    ∷ codes "Version"
    ∷ codes "Description"
    ∷ codes "Target-App"
    ∷ codes "Min-Target-Version"
    ∷ codes "Meta-URL"
    ∷ codes "Latest-URL"
    ∷ codes "Latest-Version"
    ∷ codes "Latest-Page-URL"
    ∷ codes "Name"
    ∷ codes "Author"
    ∷ codes "Release-Date"
    ∷ codes "Edit-Password-SHA256"
    ∷ []

abbrev pub distribution_metadata_keys : List Text
distribution_metadata_keys =
    codes "Script-ID"
    ∷ codes "Version"
    ∷ codes "Latest-Version"
    ∷ codes "Latest-URL"
    ∷ codes "Latest-Page-URL"
    ∷ codes "Name"
    ∷ codes "Author"
    ∷ codes "Release-Date"
    ∷ []

abbrev pub is_separator : ℕ → Bool
is_separator c = c == b':' || c == b'='

-- The first `:` or `=`.
unfoldable pub split_key_value : Text → Option (Text × Text)
split_key_value [] = none
split_key_value (c ∷ s) =
    let later = split_key_value s in
    if is_separator c
    then some ([], s)
    else elim later [ none ↦ none | some (key, value) ↦ some (c ∷ key, value) ]

-- The value behind white space and a separator.
unfoldable pub metadata_value_start : Text → Option Text
metadata_value_start [] = none
metadata_value_start (c ∷ s) =
    let later = metadata_value_start s in
    if is_whitespace c then later else if is_separator c then some s else none

-- The first key that the text begins with decides; the key as written, and the value's text.
unfoldable pub metadata_field_at : List Text → Text → Option (Text × Text)
metadata_field_at [] s = none
metadata_field_at (key ∷ keys) s =
    let later = metadata_field_at keys s in
    if starts_with_marker key s
    then elim (metadata_value_start (drop (length key) s)) [
      | none ↦ none
      | some value ↦ some (take (length key) s, value)
    ]
    else later

-- A boundary at the front, if the front is one.
unfoldable pub field_here : List Text → Bool → Text → Option (Text × Text)
field_here keys at_boundary s = if at_boundary then metadata_field_at keys s else none

-- `MetadataFieldBoundary`: what is left of the line at the key, the key, and the text of the value.
pub record Boundary : Type 0 where
  pub from_key : Text
  pub key : Text
  pub from_value : Text

unfoldable pub add_boundary : Text → Option (Text × Text) → List Boundary → List Boundary
add_boundary s none later = later
add_boundary s (some (key, value)) later =
    record { from_key = s; key = key; from_value = value } ∷ later

-- The flag tells whether the front is the start of the line or stands behind white space.
unfoldable pub boundaries_from : List Text → Bool → Text → List Boundary
boundaries_from keys at_boundary [] = []
boundaries_from keys at_boundary (c ∷ s) =
    add_boundary (c ∷ s) (field_here keys at_boundary (c ∷ s))
      (boundaries_from keys (is_whitespace c) s)

unfoldable pub find_metadata_field_boundaries : Text → List Text → List Boundary
find_metadata_field_boundaries line keys = boundaries_from keys true line

-- `line[field.value_start..value_end]`: the next key begins behind the start of the value.
unfoldable pub value_until : Boundary → List Boundary → Text
value_until field [] = field.from_value
value_until field (next ∷ later) =
    take (length field.from_value - length next.from_key) field.from_value

unfoldable pub fields_of : List Boundary → List (Text × Text)
fields_of [] = []
fields_of (field ∷ later) = (trim field.key, trim (value_until field later)) ∷ fields_of later

unfoldable pub calls : List Boundary → Option (Text × Text) → List (Text × Text)
calls [] none = []
calls [] (some field) = field ∷ []
calls (b ∷ bs) _ = fields_of (b ∷ bs)

-- The calls of `handle`, in their order.
unfoldable pub for_each_metadata_field : Text → List Text → List (Text × Text)
for_each_metadata_field line keys =
    calls (find_metadata_field_boundaries line keys) (split_key_value line)

-- Some position of the text, at a boundary, begins a field.
unfoldable pub inline_field : List Text → Bool → Text → Bool
inline_field keys at_boundary [] = false
inline_field keys at_boundary (c ∷ s) =
    is_some (field_here keys at_boundary (c ∷ s)) || inline_field keys (is_whitespace c) s

unfoldable pub contains_inline_metadata_field_raw : Text → Bool → Bool
contains_inline_metadata_field_raw [] distribution = false
contains_inline_metadata_field_raw (c ∷ s) distribution =
    inline_field (if distribution then distribution_metadata_keys else script_metadata_keys)
      (is_whitespace c) s

unfoldable pub contains_inline_metadata_field : Text → Bool → Bool
contains_inline_metadata_field value distribution =
    contains_inline_metadata_field_raw (trim value) distribution
