-- ===== src/Sections/Lines.antt =====
-- The comment prefix of a body's lines, and the keys and markers on a line.
use scriptmetakit.Chars.Search.{strip_suffix}
use scriptmetakit.Chars.{Text, codes, trim, trim_start, eq_ignore_ascii_case, text_eq, strip_prefix}
use scriptmetakit.Chars.Lines.{lines}
use scriptmetakit.Localization.Tags.{item_separator}
use scriptmetakit.Prelude.{
  Bool, ◌||◌, List, [], ◌∷◌, ◌++◌, Option, none, some, if◌then◌else◌, is_some, length, take, drop,
}

abbrev prefixes : List Text
prefixes = codes "//" ∷ codes "--" ∷ codes "#" ∷ codes ";" ∷ codes "*" ∷ []

-- A line that an item or a description begins on.
unfoldable pub begins_item : Text → Bool
begins_item line =
    is_some (item_separator line) || eq_ignore_ascii_case line (codes "Description-BEGIN")

unfoldable pub behind_prefix : Text → Bool
behind_prefix rest =
    is_some (item_separator (trim_start rest))
    || eq_ignore_ascii_case (trim rest) (codes "Description-BEGIN")

-- The inner loop.
unfoldable pub prefix_of : Text → List Text → Option Text
prefix_of line [] = none
prefix_of line (prefix ∷ later) =
    let next = prefix_of line later in
    elim (strip_prefix line prefix) [
      | none ↦ next
      | some rest ↦ if behind_prefix rest then some prefix else next
    ]

unfoldable pub prefix_in : List Text → Option Text
prefix_in [] = none
prefix_in (raw ∷ rest) =
    let later = prefix_in rest in
    if begins_item (trim raw)
    then none
    else elim (prefix_of (trim raw) prefixes) [ some prefix ↦ some prefix | none ↦ later ]

unfoldable pub infer_metadata_line_prefix : Text → Option Text
infer_metadata_line_prefix body = prefix_in (lines body)

-- `rest.strip_prefix(' ').unwrap_or(rest)`
unfoldable pub without_space : Text → Text
without_space rest = elim (strip_prefix rest (codes " ")) [ some behind ↦ behind | none ↦ rest ]

unfoldable pub strip_metadata_line_prefix : Text → Option Text → Text
strip_metadata_line_prefix line none = line
strip_metadata_line_prefix line (some prefix) = elim (strip_prefix (trim_start line) prefix) [
  | none ↦ line
  | some rest ↦ without_space rest
]

-- The language between the brackets behind the base.
unfoldable pub in_brackets : Text → Option Text
in_brackets rest = elim (strip_prefix rest (codes "[")) [
  | none ↦ none
  | some language ↦ strip_suffix language (codes "]")
]

-- `key.get(..base.len())` is not there or is another text, if a character of it is not ASCII.
unfoldable pub localized_key : Text → Text → Option Text
localized_key key base =
    if eq_ignore_ascii_case (take (length base) key) base
    then in_brackets (drop (length base) key)
    else none

unfoldable pub end_of_key : Text → Option Text
end_of_key key =
    if text_eq key (codes "Description") || is_some (localized_key key (codes "Description"))
    then some (key ++ codes "-END")
    else none

unfoldable pub description_end_marker : Text → Option Text
description_end_marker line = elim (strip_suffix line (codes "-BEGIN")) [
  | none ↦ none
  | some key ↦ end_of_key key
]
