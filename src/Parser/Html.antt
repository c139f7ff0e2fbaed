-- ===== src/Parser/Html.antt =====
-- `normalize_distribution_body` of src/core/parser.rs: the text of a distribution page, which may be
-- HTML or a string of JSON. The first argument of a loop counts the characters that an earlier round
-- has used up already.
pub mod Tags
mod Tests
use scriptmetakit.Chars.Search.{find_char}
use scriptmetakit.Chars.{
  Text, codes, text_eq, is_whitespace, trim_start, strip_prefix, to_ascii_lowercase,
}
use scriptmetakit.Prelude.{
  ℕ, zero, suc, ◌+◌, ◌-◌, Bool, true, false, not, ◌||◌, List, [], ◌∷◌, ◌++◌, Option, none, some,
  ◌==◌, if◌then◌else◌, any, is_some, length, take, take_while,
}

-- `Some("003c" | "003C")` and the like.
hex_escape : Text → Option ℕ
hex_escape s =
    if text_eq s (codes "003c") || text_eq s (codes "003C")
    then some b'<'
    else if text_eq s (codes "003e") || text_eq s (codes "003E")
    then some b'>'
    else if text_eq s (codes "002f") || text_eq s (codes "002F")
    then some b'/'
    else none

-- What stands for a backslash and the characters behind it, and how many of these are used up.
json_escape : Text → Text × ℕ
json_escape [] = (0x5c ∷ [], 0)
json_escape (e ∷ rest) =
    if e == b'n'
    then (0xa ∷ [], 1)
    else if e == b'r'
    then (0xa ∷ [], if is_some (strip_prefix rest (0x5c ∷ b'n' ∷ [])) then 3 else 1)
    else if e == b'/'
    then (b'/' ∷ [], 1)
    else if e == 0x22
    then (0x22 ∷ [], 1)
    else if e == b'u'
    then elim (hex_escape (take 4 rest)) [ some c ↦ (c ∷ [], 5) | none ↦ (0x5c ∷ b'u' ∷ [], 1) ]
    else (0x5c ∷ e ∷ [], 1)

decode_from : ℕ → Text → Text
decode_from used [] = []
decode_from (suc used) (c ∷ s) = decode_from used s
decode_from zero (c ∷ s) =
    let escaped = decode_from (json_escape s).1 s in
    let plain = decode_from zero s in if c == 0x5c then (json_escape s).0 ++ escaped else c ∷ plain

pub decode_json_html_escapes : Text → Text
decode_json_html_escapes text = decode_from 0 text

abbrev break_tags : List Text
break_tags =
    codes "br"
    ∷ codes "p"
    ∷ codes "div"
    ∷ codes "li"
    ∷ codes "tr"
    ∷ codes "section"
    ∷ codes "article"
    ∷ []

tag_name : Text → Text
tag_name trimmed =
    take_while (λ c. not (is_whitespace c || c == b'/'))
      (elim (strip_prefix trimmed (b'/' ∷ [])) [ some rest ↦ trim_start rest | none ↦ trimmed ])

pub is_html_break_tag : Text → Bool
is_html_break_tag tag = any (text_eq (to_ascii_lowercase (tag_name (trim_start tag)))) break_tags

-- What a tag leaves, behind an output that ends with white space or not, and whether it does then.
pub tag_output : Bool → Text → Text
tag_output ends_with_space tag =
    if is_html_break_tag tag then 0xa ∷ [] else if ends_with_space then [] else 0x20 ∷ []

-- The offset of the `>` behind a `<`.
pub tag_end : ℕ → Text → Option ℕ
tag_end c s = if c == b'<' then find_char b'>' s else none

pub strip_from : ℕ → Bool → Text → Text
strip_from used ends_with_space [] = []
strip_from (suc used) ends_with_space (c ∷ s) = strip_from used ends_with_space s
strip_from zero ends_with_space (c ∷ s) = elim (tag_end c s) [
  | some end ↦ tag_output ends_with_space (take end s) ++ strip_from (suc end) true s
  | none ↦ c ∷ strip_from zero (is_whitespace c) s
]

pub strip_html_tags : Text → Text
strip_html_tags text = strip_from 0 false text

-- `str::replace`.
replace_from : Text → Text → ℕ → Text → Text
replace_from pattern replacement used [] = []
replace_from pattern replacement (suc used) (c ∷ s) = replace_from pattern replacement used s
replace_from pattern replacement zero (c ∷ s) =
    let found = replace_from pattern replacement (length pattern - 1) s in
    let kept = replace_from pattern replacement zero s in
    if is_some (strip_prefix (c ∷ s) pattern) then replacement ++ found else c ∷ kept

pub replace : Text → Text → Text → Text
replace text pattern replacement = replace_from pattern replacement 0 text

pub decode_basic_html_entities : Text → Text
decode_basic_html_entities text =
    let amp = replace text (codes "&amp;") (codes "&") in
    let lt = replace amp (codes "&lt;") (codes "<") in
    let gt = replace lt (codes "&gt;") (codes ">") in
    let quot = replace gt (codes "&quot;") (0x22 ∷ []) in
    let number = replace quot (codes "&#39;") (codes "'") in
    let apos = replace number (codes "&apos;") (codes "'") in
    replace apos (codes "&nbsp;") (codes " ")

needs_decoding : ℕ → Bool
needs_decoding c = c == b'<' || c == b'&' || c == 0x5c

pub normalize_distribution_body : Text → Text
normalize_distribution_body body =
    if any needs_decoding body
    then decode_basic_html_entities (strip_html_tags (decode_json_html_escapes body))
    else body
