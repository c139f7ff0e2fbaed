-- ===== src/Formats/Inspect.antt =====
-- `inspect_script_file` of src/formats/mod.rs, and the questions about a path beside it.
pub mod Offers
mod Tests
use scriptmetakit.Chars.{Text, codes, strip_prefix}
use scriptmetakit.Formats.Capability.{
  ScriptMetaEditState, ScriptMetaEditCapability, Files, is_obfuscated, is_unsupported,
  scriptmeta_edit_capability_from_file_list_probe,
}
use scriptmetakit.Formats.{
  ScriptRuntimeKind, ScriptFormatKind, CommentSyntax, no_comment, apple_script_compiled,
  ScriptFormatSpec, extension_matches_any, normalized_extension, needs_shebang_probe,
  needs_jsxbin_probe, runtime_of, supported, shebang_of, read_script_header_probe, format_for_path,
  detect_script_file_from_bytes,
}
use scriptmetakit.Parser.Metadata.{has_script_metadata_block}
use scriptmetakit.Paths.{FilePath, Component, root_dir, cur_dir, parent_dir, normal}
use scriptmetakit.Prelude.{
  ℕ, Bool, true, false, not, ◌&&◌, ◌||◌, List, [], ◌∷◌, Option, none, some, if◌then◌else◌, any,
  is_some,
}

pub record ScriptFileInspection : Type 0 where
  pub is_supported_script_path : Bool
  pub runtime_kind : Option ScriptRuntimeKind
  pub shebang : Option Text
  pub comment_syntax : Option CommentSyntax
  pub supports_inline_scriptmeta_editing : Bool
  pub is_file_locked : Bool
  pub is_read_only : Bool
  pub can_edit_scriptmeta : Bool
  pub can_append_scriptmeta : Bool
  pub scriptmeta_edit_state : ScriptMetaEditState

abbrev default_script_extensions : List Text
default_script_extensions =
    codes "js"
    ∷ codes "jsx"
    ∷ codes "jsxbin"
    ∷ codes "jsxinc"
    ∷ codes "scpt"
    ∷ codes "scptd"
    ∷ codes "applescript"
    ∷ codes "jxa"
    ∷ codes "idjs"
    ∷ codes "psjs"
    ∷ []

unfoldable pub has_syntax : CommentSyntax → Bool
has_syntax syntax = elim syntax [ no_comment ↦ false | _ ↦ true ]

unfoldable pub syntax_of : Option ScriptFormatSpec → Option CommentSyntax
syntax_of none = none
syntax_of (some spec) = if has_syntax spec.comment_syntax then some spec.comment_syntax else none

unfoldable pub kind_of : Option ScriptFormatSpec → Option ScriptFormatKind
kind_of none = none
kind_of (some spec) = some spec.kind

unfoldable pub is_package_format : Option ScriptFormatSpec → Bool
is_package_format none = false
is_package_format (some spec) = spec.is_package

unfoldable pub is_compiled_kind : Option ScriptFormatKind → Bool
is_compiled_kind kind = elim kind [ some apple_script_compiled ↦ true | _ ↦ false ]

unfoldable pub needs_script_header_probe : FilePath → Bool
needs_script_header_probe path = needs_shebang_probe path || needs_jsxbin_probe path

unfoldable pub has_scriptmeta_tag : Text → Bool
has_scriptmeta_tag prefix_text = has_script_metadata_block prefix_text

unfoldable pub begins_with_dot : Component → Bool
begins_with_dot root_dir = false
begins_with_dot cur_dir = true
begins_with_dot parent_dir = true
begins_with_dot (normal name) = is_some (strip_prefix name (codes "."))

unfoldable pub may_be_script : Option Text → Bool
may_be_script none = true
may_be_script (some e) = extension_matches_any e default_script_extensions

unfoldable pub script_path_may_affect_metadata : FilePath → Bool
script_path_may_affect_metadata path =
    if any begins_with_dot path then false else may_be_script (normalized_extension path)

module _ (from_utf8_lossy : List ℕ → Text) where
  unfoldable pub format_kind_for_path : FilePath → Option (List ℕ) → Option ScriptFormatKind
  format_kind_for_path path prefix_bytes =
      kind_of (format_for_path from_utf8_lossy path prefix_bytes)

  unfoldable pub is_script_package_path : FilePath → Bool
  is_script_package_path path = is_package_format (format_for_path from_utf8_lossy path none)

  unfoldable pub is_compiled_osa_path : FilePath → Bool
  is_compiled_osa_path path = is_compiled_kind (format_kind_for_path path none)

  unfoldable pub comment_syntax_for_path : FilePath → Option CommentSyntax
  comment_syntax_for_path path = syntax_of (format_for_path from_utf8_lossy path none)

  module _ (files : Files) where
    unfoldable pub inspection :
        FilePath → Option (List ℕ) → ScriptMetaEditCapability → ScriptFileInspection
    inspection path prefix_bytes capability =
        let info = detect_script_file_from_bytes from_utf8_lossy path prefix_bytes in
        let format = format_for_path from_utf8_lossy path prefix_bytes in
        record {
          is_supported_script_path = is_some format;
          runtime_kind = info.runtime_kind;
          shebang = info.shebang;
          comment_syntax = syntax_of format;
          supports_inline_scriptmeta_editing =
              supported format
              && not (
                  is_obfuscated capability.scriptmeta_edit_state
                  || is_unsupported capability.scriptmeta_edit_state);
          is_file_locked = capability.is_file_locked;
          is_read_only = capability.is_read_only;
          can_edit_scriptmeta = capability.can_edit_scriptmeta;
          can_append_scriptmeta = capability.can_append_scriptmeta;
          scriptmeta_edit_state = capability.scriptmeta_edit_state;
        }

    -- With the contents of the file, if it can be read.
    unfoldable pub inspect_script_file : FilePath → Option (List ℕ) → ScriptFileInspection
    inspect_script_file path contents =
        let prefix_bytes = read_script_header_probe path contents in
        inspection path prefix_bytes
          (scriptmeta_edit_capability_from_file_list_probe from_utf8_lossy files path prefix_bytes)
