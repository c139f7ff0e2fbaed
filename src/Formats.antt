-- ===== src/Formats.antt =====
-- src/formats: the formats of script files, by extension and by the first bytes.
pub mod Capability
pub mod CompiledOsa
pub mod Inspect
pub mod Kinds
pub mod Tests
use scriptmetakit.Chars.Search.{strip_suffix}
use scriptmetakit.Chars.{
  Text, codes, trim, is_whitespace, is_empty, text_eq, eq_ignore_ascii_case, strip_prefix,
}
use scriptmetakit.Extensions.{extension}
use scriptmetakit.Localization.Select.{rsplit_once}
use scriptmetakit.Paths.{FilePath}
use scriptmetakit.Prelude.{
  ℕ, Bool, true, false, not, ◌&&◌, ◌||◌, List, [], ◌∷◌, ◌++◌, Option, none, some, ◌==◌,
  if◌then◌else◌, any, is_some, drop_while, take_while, filter, take,
}

-- `ScriptRuntimeKind` of src/core/metadata.rs.
pub data ScriptRuntimeKind : Type 0 where
  apple_script java_script_for_automation adobe_java_script adobe_uxp : ScriptRuntimeKind

pub data ScriptFormatKind : Type 0 where
  java_script jsxbin uxp apple_script_text apple_script_compiled apple_script_package automation :
      ScriptFormatKind

pub data CommentSyntax : Type 0 where
  java_script_block apple_script_block plain_text no_comment : CommentSyntax

pub record ScriptFormatSpec : Type 0 where
  pub kind : ScriptFormatKind
  pub extensions : List Text
  pub runtime_kind : Option ScriptRuntimeKind
  pub comment_syntax : CommentSyntax
  pub supports_scriptmeta_write : Bool
  pub is_package : Bool

abbrev pub adobe_javascript : ScriptFormatSpec
adobe_javascript = record {
  kind = java_script;
  extensions = codes "js" ∷ codes "jsx" ∷ codes "jsxinc" ∷ [];
  runtime_kind = some adobe_java_script;
  comment_syntax = java_script_block;
  supports_scriptmeta_write = true;
  is_package = false;
}

abbrev pub adobe_jsxbin : ScriptFormatSpec
adobe_jsxbin = record {
  kind = jsxbin;
  extensions = codes "jsxbin" ∷ [];
  runtime_kind = some adobe_java_script;
  comment_syntax = java_script_block;
  supports_scriptmeta_write = false;
  is_package = false;
}

abbrev pub applescript_text : ScriptFormatSpec
applescript_text = record {
  kind = apple_script_text;
  extensions = codes "applescript" ∷ [];
  runtime_kind = some apple_script;
  comment_syntax = apple_script_block;
  supports_scriptmeta_write = true;
  is_package = false;
}

abbrev pub applescript_compiled : ScriptFormatSpec
applescript_compiled = record {
  kind = apple_script_compiled;
  extensions = codes "scpt" ∷ [];
  runtime_kind = some apple_script;
  comment_syntax = apple_script_block;
  supports_scriptmeta_write = true;
  is_package = false;
}

abbrev pub applescript_package : ScriptFormatSpec
applescript_package = record {
  kind = apple_script_package;
  extensions = codes "scptd" ∷ [];
  runtime_kind = some apple_script;
  comment_syntax = no_comment;
  supports_scriptmeta_write = false;
  is_package = true;
}

abbrev pub jxa : ScriptFormatSpec
jxa = record {
  kind = automation;
  extensions = codes "jxa" ∷ [];
  runtime_kind = some java_script_for_automation;
  comment_syntax = java_script_block;
  supports_scriptmeta_write = true;
  is_package = false;
}

abbrev pub adobe_uxp_spec : ScriptFormatSpec
adobe_uxp_spec = record {
  kind = uxp;
  extensions = codes "idjs" ∷ codes "psjs" ∷ [];
  runtime_kind = some adobe_uxp;
  comment_syntax = java_script_block;
  supports_scriptmeta_write = true;
  is_package = false;
}

abbrev pub format_specs : List ScriptFormatSpec
format_specs =
    adobe_javascript ∷ adobe_jsxbin ∷ applescript_text ∷ applescript_compiled ∷ applescript_package
    ∷ jxa ∷ adobe_uxp_spec ∷ []

unfoldable pub unless_empty : Text → Option Text
unless_empty e = if is_empty e then none else some e

unfoldable pub tidy_extension : Option Text → Option Text
tidy_extension none = none
tidy_extension (some e) = unless_empty (drop_while (λ c. c == b'.') (trim e))

unfoldable pub normalized_extension : FilePath → Option Text
normalized_extension path = tidy_extension (extension path)

unfoldable pub extension_matches_any : Text → List Text → Bool
extension_matches_any e candidates = any (eq_ignore_ascii_case e) candidates

-- `str::split_whitespace`: the pieces between white space, without the empty ones.
put_first : ℕ → List Text → List Text
put_first c [] = (c ∷ []) ∷ []
put_first c (word ∷ words) = (c ∷ word) ∷ words

pieces : Text → List Text
pieces [] = [] ∷ []
pieces (c ∷ s) = let later = pieces s in if is_whitespace c then [] ∷ later else put_first c later

pub split_whitespace : Text → List Text
split_whitespace s = filter (λ word. not (is_empty word)) (pieces s)

-- `token.rsplit('/').next()`
behind_slash : Text → Text
behind_slash token = elim (rsplit_once b'/' token) [ none ↦ token | some (_, name) ↦ name ]

is_osascript_program : Text → Bool
is_osascript_program token = text_eq (behind_slash token) (codes "osascript")

is_env_program : Text → Bool
is_env_program token = text_eq (behind_slash token) (codes "env")

is_language_flag : Text → Bool
is_language_flag word =
    text_eq word (codes "-l") || text_eq word (codes "-lang") || text_eq word (codes "-language")

pub osascript_args_request_jxa : List Text → Bool
osascript_args_request_jxa [] = false
osascript_args_request_jxa (flag ∷ []) = false
osascript_args_request_jxa (flag ∷ language ∷ args) =
    is_language_flag flag && eq_ignore_ascii_case language (codes "JavaScript")
    || osascript_args_request_jxa (language ∷ args)

behind_osascript : List Text → Bool
behind_osascript [] = false
behind_osascript (token ∷ args) =
    let later = behind_osascript args in
    if is_osascript_program token then osascript_args_request_jxa args else later

tokens_request_jxa : List Text → Bool
tokens_request_jxa [] = false
tokens_request_jxa (program ∷ args) =
    if is_osascript_program program
    then osascript_args_request_jxa args
    else is_env_program program && behind_osascript args

shebang_requests_jxa : Option Text → Bool
shebang_requests_jxa none = false
shebang_requests_jxa (some shebang) = elim (strip_prefix shebang (codes "#!")) [
  | none ↦ false
  | some command_line ↦ tokens_request_jxa (split_whitespace command_line)
]

-- The line without a carriage return at its end.
first_line : List ℕ → List ℕ
first_line bytes =
    let line = take_while (λ b. not (b == 0xa)) bytes in
    elim (strip_suffix line (0xd ∷ [])) [ some kept ↦ kept | none ↦ line ]

unfoldable pub find_spec : Text → List ScriptFormatSpec → Option ScriptFormatSpec
find_spec e [] = none
find_spec e (spec ∷ specs) =
    let later = find_spec e specs in
    if extension_matches_any e spec.extensions then some spec else later

unfoldable pub asks_shebang : Text → Bool
asks_shebang e = eq_ignore_ascii_case e (codes "js") || eq_ignore_ascii_case e (codes "applescript")

-- `ScriptFileInfo`.
pub record ScriptFileInfo : Type 0 where
  pub runtime_kind : Option ScriptRuntimeKind
  pub shebang : Option Text

runtime_of : Option ScriptFormatSpec → Option ScriptRuntimeKind
runtime_of none = none
runtime_of (some spec) = spec.runtime_kind

unfoldable pub test_extension : Option Text → (Text → Bool) → Bool
test_extension none p = false
test_extension (some e) p = p e

unfoldable pub needs_shebang_probe : FilePath → Bool
needs_shebang_probe path = test_extension (normalized_extension path) asks_shebang

abbrev pub probed_extensions : List Text
probed_extensions = codes "js" ∷ codes "jsx" ∷ codes "jsxbin" ∷ []

unfoldable pub needs_jsxbin_probe : FilePath → Bool
needs_jsxbin_probe path =
    test_extension (normalized_extension path) (λ e. extension_matches_any e probed_extensions)

unfoldable pub script_header_probe_byte_limit : FilePath → ℕ
script_header_probe_byte_limit path =
    if needs_shebang_probe path then 50 else if needs_jsxbin_probe path then 8 else 0

unfoldable pub is_jsxbin : Option ScriptFormatSpec → Bool
is_jsxbin none = false
is_jsxbin (some spec) = elim spec.kind [ jsxbin ↦ true | _ ↦ false ]

abbrev pub jsxbin_signature : List ℕ
jsxbin_signature = codes "@JSXBIN"

unfoldable pub has_signature : Option (List ℕ) → Bool
has_signature none = false
has_signature (some bytes) = is_some (strip_prefix bytes jsxbin_signature)

unfoldable pub supported : Option ScriptFormatSpec → Bool
supported none = false
supported (some spec) = spec.supports_scriptmeta_write

-- `read_script_header_probe`: the first bytes of a file that can be read, if any are asked for.
unfoldable pub read_script_header_probe : FilePath → Option (List ℕ) → Option (List ℕ)
read_script_header_probe path none = none
read_script_header_probe path (some bytes) =
    if script_header_probe_byte_limit path == 0
    then none
    else some (take (script_header_probe_byte_limit path) bytes)

-- `String::from_utf8_lossy` is a parameter.
module _ (from_utf8_lossy : List ℕ → Text) where
  pub extract_shebang : List ℕ → Option Text
  extract_shebang bytes =
      if is_some (strip_prefix bytes (codes "#!"))
      then unless_empty (trim (from_utf8_lossy (first_line bytes)))
      else none

  pub shebang_of : Option (List ℕ) → Option Text
  shebang_of none = none
  shebang_of (some bytes) = extract_shebang bytes

  pub has_jxa_osascript_shebang : Option (List ℕ) → Bool
  has_jxa_osascript_shebang prefix_bytes = shebang_requests_jxa (shebang_of prefix_bytes)

  unfoldable pub format_for_extension : Text → Option (List ℕ) → Option ScriptFormatSpec
  format_for_extension e prefix_bytes =
      if eq_ignore_ascii_case e (codes "jxa")
        || (asks_shebang e && has_jxa_osascript_shebang prefix_bytes)
      then some jxa
      else find_spec e format_specs

  unfoldable pub format_for_path : FilePath → Option (List ℕ) → Option ScriptFormatSpec
  format_for_path path prefix_bytes = elim (normalized_extension path) [
    | none ↦ none
    | some e ↦ format_for_extension e prefix_bytes
  ]

  pub detect_script_file_from_bytes : FilePath → Option (List ℕ) → ScriptFileInfo
  detect_script_file_from_bytes path prefix_bytes = record {
    runtime_kind = runtime_of (format_for_path path prefix_bytes);
    shebang = shebang_of prefix_bytes;
  }

  unfoldable pub is_jsxbin_obfuscated_script : FilePath → Option (List ℕ) → Bool
  is_jsxbin_obfuscated_script path prefix_bytes =
      is_jsxbin (format_for_path path prefix_bytes)
      || (needs_jsxbin_probe path && has_signature prefix_bytes)

  unfoldable pub supports_scriptmeta_write : FilePath → Bool
  supports_scriptmeta_write path = supported (format_for_path path none)
