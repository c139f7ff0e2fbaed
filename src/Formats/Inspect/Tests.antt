-- ===== src/Formats/Inspect/Tests.antt =====
-- An inspection of a script that can be written to.
use scriptmetakit.Chars.Search.{strip_suffix}
use scriptmetakit.Chars.{
  Text, codes, strip_prefix, is_empty, trim, trim_end, trim_start, is_whitespace, ascii_lower,
  eq_ignore_ascii_case, text_eq, to_ascii_lowercase,
}
use scriptmetakit.Extensions.{extension, name_extension, extension_of, behind_dot}
use scriptmetakit.Formats.Capability.{
  editable, Files, is_obfuscated, is_unsupported, edit_state, from_state,
  scriptmeta_edit_capability, scriptmeta_edit_capability_from_file_list_probe,
  scriptmeta_edit_capability_from_metadata, write_state, file_write_state,
}
use scriptmetakit.Formats.Inspect.Offers.{inspect_script_file-from_metadata}
use scriptmetakit.Formats.Inspect.{inspection, inspect_script_file}
use scriptmetakit.Formats.Tests.{as_is, script}
use scriptmetakit.Formats.{
  read_script_header_probe, supported, format_for_path, normalized_extension, tidy_extension,
  unless_empty, format_for_extension, find_spec, extension_matches_any, has_signature, is_jsxbin,
  is_jsxbin_obfuscated_script, needs_jsxbin_probe, needs_shebang_probe, asks_shebang,
  script_header_probe_byte_limit, supports_scriptmeta_write, test_extension,
}
use scriptmetakit.Paths.{file_name, split_last}
use scriptmetakit.Prelude.{true, false, some, ◌≡◌, refl}

abbrev contents : Text
contents = codes "alert(1)"

abbrev writable : Files
writable = record {
  metadata = λ path. some (record { has_lock_flags = false; is_readonly = false; is_file = true });
  parent_directory_is_read_only = λ path. false;
}

inspect_script_file-from_metadata_example :
    (scriptmeta_edit_capability_from_metadata as_is writable script
      (read_script_header_probe script (some contents))
      true
      false).scriptmeta_edit_state
    ≡ editable
unfolding inspection inspect_script_file strip_suffix strip_prefix is_empty trim trim_end trim_start
    is_whitespace ascii_lower eq_ignore_ascii_case text_eq to_ascii_lowercase extension
    name_extension extension_of behind_dot is_obfuscated is_unsupported edit_state from_state
    scriptmeta_edit_capability scriptmeta_edit_capability_from_file_list_probe write_state
    file_write_state read_script_header_probe supported format_for_path normalized_extension
    tidy_extension unless_empty format_for_extension find_spec extension_matches_any has_signature
    is_jsxbin is_jsxbin_obfuscated_script needs_jsxbin_probe needs_shebang_probe asks_shebang
    script_header_probe_byte_limit supports_scriptmeta_write test_extension file_name split_last
inspect_script_file-from_metadata_example =
    inspect_script_file-from_metadata as_is writable script (some contents) true false refl refl
