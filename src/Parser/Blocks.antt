-- ===== src/Parser/Blocks.antt =====
-- The blocks of src/core/parser.rs. A position is the pair of the text before it and the text from
-- it on.
pub mod Found
mod Tests
use scriptmetakit.Chars.{Text, codes, trim, strip_prefix, eq_ignore_ascii_case}
use scriptmetakit.CustomMetadata.Keys.{has_custom_metadata_prefix}
use scriptmetakit.Prelude.{
  ℕ, Bool, true, false, not, ◌&&◌, ◌||◌, List, [], ◌∷◌, ◌++◌, Option, none, some, ◌==◌,
  if◌then◌else◌, any, length, take, drop,
}

abbrev pub script_begin : Text
script_begin = codes "SCRIPTMETA-BEGIN"

abbrev pub script_end : Text
script_end = codes "SCRIPTMETA-END"

abbrev pub dist_begin : Text
dist_begin = codes "SCRIPTMETA-DIST-BEGIN"

abbrev pub dist_end : Text
dist_end = codes "SCRIPTMETA-DIST-END"

-- `window.eq_ignore_ascii_case(needle)` at the front of a text.
unfoldable pub starts_with_marker : Text → Text → Bool
starts_with_marker needle s = eq_ignore_ascii_case (take (length needle) s) needle

unfoldable pub find_ascii_case_insensitive : Text → Text → Option (Text × Text)
find_ascii_case_insensitive needle [] = none
find_ascii_case_insensitive needle (c ∷ s) =
    let later = find_ascii_case_insensitive needle s in
    if starts_with_marker needle (c ∷ s)
    then some ([], c ∷ s)
    else elim later [ none ↦ none | some (before, from) ↦ some (c ∷ before, from) ]

unfoldable pub block_between : Text → Text → Text → Option Text
block_between text begin end = elim (find_ascii_case_insensitive begin text) [
  | none ↦ none
  | some (_, from) ↦ elim (find_ascii_case_insensitive end (drop (length begin) from)) [
    | none ↦ none
    | some (body, _) ↦ some body
  ]
]

-- One round of the loop of `clean_metadata_line`.
unfoldable pub strip_comment : Text → Text → Text
strip_comment trimmed prefix = elim (strip_prefix trimmed prefix) [
  | some rest ↦ trim rest
  | none ↦ trimmed
]

unfoldable pub strip_comments : Text → List Text → Text
strip_comments trimmed [] = trimmed
strip_comments trimmed (prefix ∷ prefixes) = strip_comments (strip_comment trimmed prefix) prefixes

abbrev comment_prefixes : List Text
comment_prefixes =
    codes "//" ∷ codes "--" ∷ codes "#" ∷ codes "*" ∷ codes "/*" ∷ codes "*/" ∷ codes ";" ∷ []

unfoldable pub clean_metadata_line : Text → Text
clean_metadata_line line = strip_comments (trim line) comment_prefixes

abbrev is_break : ℕ → Bool
is_break c = c == 0xd || c == 0xa

-- What follows the last line break.
unfoldable pub last_line : Text → Text
last_line [] = []
last_line (c ∷ s) =
    let later = last_line s in if any is_break s then later else if is_break c then s else c ∷ s

unfoldable pub custom_metadata_boundary_is_embedded : Text → Bool
custom_metadata_boundary_is_embedded before =
    has_custom_metadata_prefix (clean_metadata_line (last_line before))

-- The `match` on the end marker; `front` is the text up to the body.
unfoldable pub closed_body : Text → Text → Bool → Option (Text × Text) → Option Text
closed_body front rest require_closed_block (some (body, _)) =
    if custom_metadata_boundary_is_embedded (front ++ body) then none else some body
closed_body front rest require_closed_block none = if require_closed_block then none else some rest

unfoldable pub script_metadata_body : Text → Bool → Option Text
script_metadata_body text require_closed_block =
    elim (find_ascii_case_insensitive script_begin text) [
      | none ↦ none
      | some (before, from) ↦
          let rest = drop (length script_begin) from in
          closed_body (before ++ take (length script_begin) from) rest require_closed_block
            (find_ascii_case_insensitive script_end rest)
    ]
