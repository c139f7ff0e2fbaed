-- ===== src/Formats/Inspect/Offers.antt =====
-- What an inspection offers before the metadata of the file is known.
use scriptmetakit.Chars.{Text}
use scriptmetakit.Formats.Capability.{
  editable, appendable, Files, is_obfuscated, is_unsupported, edit_state, from_state,
  scriptmeta_edit_capability, scriptmeta_edit_capability_from_file_list_probe,
  scriptmeta_edit_capability_from_metadata,
}
use scriptmetakit.Formats.Inspect.{inspection, inspect_script_file}
use scriptmetakit.Formats.{read_script_header_probe}
use scriptmetakit.Paths.{FilePath}
use scriptmetakit.Prelude.{ℕ, Bool, true, false, List, Option, if◌then◌else◌, ◌≡◌, arith}

module _ (from_utf8_lossy : List ℕ → Text) (files : Files) where
  -- If an inspection offers to edit inline and does not report a read-only file, then metadata read
  -- later, with the same first bytes, can be edited where the file has it and appended where not.
  pub inspect_script_file-from_metadata :
      (path : FilePath) (contents : Option (List ℕ)) (has_scriptmeta password : Bool)
      → (inspect_script_file from_utf8_lossy files path contents).supports_inline_scriptmeta_editing
        ≡ true
      → (inspect_script_file from_utf8_lossy files path contents).is_read_only ≡ false
      → (scriptmeta_edit_capability_from_metadata from_utf8_lossy files path
          (read_script_header_probe path contents)
          has_scriptmeta
          password).scriptmeta_edit_state
        ≡ (if has_scriptmeta then editable else appendable)
  unfolding inspection inspect_script_file scriptmeta_edit_capability_from_file_list_probe
      scriptmeta_edit_capability_from_metadata scriptmeta_edit_capability from_state edit_state
      is_obfuscated is_unsupported
  inspect_script_file-from_metadata path contents has_scriptmeta password h k = ground arith
