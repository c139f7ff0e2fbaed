-- ===== src/Formats/Capability/Laws.antt =====
-- When a script file may be edited, and what a cached state is good for.
use scriptmetakit.Chars.{Text}
use scriptmetakit.Formats.Capability.{
  ScriptMetaEditState, unsupported, obfuscated, read_only, appendable, editable, is_editable,
  is_unknown, is_obfuscated, Files, file_write_state, from_state, edit_state,
  scriptmeta_edit_capability, scriptmeta_edit_capability_from_metadata,
  scriptmeta_edit_capability_from_cached_metadata,
}
use scriptmetakit.Formats.Kinds.{obfuscated_none}
use scriptmetakit.Formats.{is_jsxbin_obfuscated_script, supports_scriptmeta_write}
use scriptmetakit.Paths.{FilePath}
use scriptmetakit.Prelude.{
  ℕ, Bool, true, false, not, ◌||◌, List, Option, none, if◌then◌else◌, ◌≡◌, ◌↔◌, refl, Bool-cases,
  inl, inr, arith,
}

module _ (from_utf8_lossy : List ℕ → Text) (files : Files) where
  module _ (path : FilePath) where
    -- The file can be written to, in a format that metadata can be written in.
    abbrev pub IsWritable : Option (List ℕ) → Type 0
    IsWritable prefix_bytes =
        (is_jsxbin_obfuscated_script from_utf8_lossy path prefix_bytes ≡ false)
        × (supports_scriptmeta_write from_utf8_lossy path ≡ true)
        × ((file_write_state files path).is_special_file ≡ false)
        × ((file_write_state files path).is_read_only ≡ false)

    -- The state of a file that is known not to be obfuscated, its metadata being known.
    known_state : Bool → ScriptMetaEditState
    known_state has_scriptmeta =
        if not (supports_scriptmeta_write from_utf8_lossy path)
          || (file_write_state files path).is_special_file
        then unsupported
        else if (file_write_state files path).is_read_only
        then read_only
        else if has_scriptmeta
        then editable
        else appendable

    edit_state-known_state :
        (prefix_bytes : Option (List ℕ)) (has_scriptmeta : Bool)
        → is_jsxbin_obfuscated_script from_utf8_lossy path prefix_bytes ≡ false
        → edit_state from_utf8_lossy files path prefix_bytes true has_scriptmeta
          ≡ known_state has_scriptmeta
    unfolding edit_state known_state
    edit_state-known_state prefix_bytes has_scriptmeta h = rw (h, edit_state) refl

    edit_state-obfuscated :
        (prefix_bytes : Option (List ℕ)) (has_scriptmeta : Bool)
        → is_jsxbin_obfuscated_script from_utf8_lossy path prefix_bytes ≡ true
        → edit_state from_utf8_lossy files path prefix_bytes true has_scriptmeta ≡ obfuscated
    unfolding edit_state
    edit_state-obfuscated prefix_bytes has_scriptmeta h = rw (h, edit_state) refl

    known_state_fresh :
        (has_scriptmeta : Bool)
        → (is_unknown (known_state has_scriptmeta) ≡ false)
          × (is_obfuscated (known_state has_scriptmeta) ≡ false)
    unfolding known_state is_unknown is_obfuscated
    known_state_fresh has_scriptmeta =
        elim (Bool-cases (
          not (supports_scriptmeta_write from_utf8_lossy path)
          || (file_write_state files path).is_special_file)) [
            | inl e ↦ rw (e, known_state) (refl, refl)
            | inr e ↦ elim (Bool-cases (file_write_state files path).is_read_only) [
              | inl k ↦ rw (e, k, known_state) (refl, refl)
              | inr k ↦ elim (Bool-cases has_scriptmeta) [
                | inl l ↦ rw (e, k, l, known_state) (refl, refl)
                | inr l ↦ rw (e, k, l, known_state) (refl, refl)
              ]
            ]
          ]

  -- While a file is as it was, the state that was cached gives the same capability as reading the
  -- file's first bytes again.
  pub from_cached-from_metadata :
      (path : FilePath) (prefix_bytes : Option (List ℕ)) (has_scriptmeta password : Bool)
      → scriptmeta_edit_capability_from_cached_metadata from_utf8_lossy files path
          (scriptmeta_edit_capability_from_metadata from_utf8_lossy files path prefix_bytes
            has_scriptmeta password).scriptmeta_edit_state
          has_scriptmeta
          password
        ≡ scriptmeta_edit_capability_from_metadata from_utf8_lossy files path prefix_bytes
            has_scriptmeta password
  unfolding scriptmeta_edit_capability_from_cached_metadata scriptmeta_edit_capability_from_metadata
      scriptmeta_edit_capability from_state is_obfuscated
  from_cached-from_metadata path prefix_bytes has_scriptmeta password =
      elim (Bool-cases (is_jsxbin_obfuscated_script from_utf8_lossy path prefix_bytes)) [
        | inl h ↦
            rw
              (
                edit_state-obfuscated path prefix_bytes has_scriptmeta h,
                scriptmeta_edit_capability_from_cached_metadata,
              )
              refl
        | inr h ↦
            let fresh = known_state_fresh path has_scriptmeta in
            let quiet = obfuscated_none from_utf8_lossy path prefix_bytes h in
            rw
              (
                edit_state-known_state path prefix_bytes has_scriptmeta h,
                scriptmeta_edit_capability_from_cached_metadata,
              )
              (rw fresh.1
                (rw fresh.0 (rw (edit_state-known_state path none has_scriptmeta quiet) refl)))
      ]

  -- Metadata can be edited exactly if the file is known to have it and is writable.
  pub can_edit_scriptmeta_iff :
      (path : FilePath) (prefix_bytes : Option (List ℕ)) (known has_scriptmeta password : Bool)
      → ((scriptmeta_edit_capability from_utf8_lossy files path prefix_bytes known has_scriptmeta
            password).can_edit_scriptmeta
          ≡ true)
        ↔ ((known ≡ true) × (has_scriptmeta ≡ true) × IsWritable path prefix_bytes)
  unfolding scriptmeta_edit_capability from_state edit_state is_editable
  can_edit_scriptmeta_iff path prefix_bytes known has_scriptmeta password = ground arith
