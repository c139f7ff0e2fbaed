-- ===== src/Formats/Capability.antt =====
-- What may be done to the metadata of a script file: `scriptmeta_edit_capability` of
-- src/formats/mod.rs, and the states and capabilities of src/core/metadata.rs.
pub mod Laws
mod Tests
use scriptmetakit.Chars.{Text, codes}
use scriptmetakit.Formats.{is_jsxbin_obfuscated_script, supports_scriptmeta_write}
use scriptmetakit.Paths.{FilePath}
use scriptmetakit.Prelude.{
  ℕ, Bool, true, false, not, ◌&&◌, ◌||◌, List, Option, none, some, if◌then◌else◌,
}

pub data ScriptMetaEditState : Type 0 where
  unknown unsupported obfuscated read_only appendable editable : ScriptMetaEditState

-- `ScriptMetaEditState::as_str`.
pub state_name : ScriptMetaEditState → Text
state_name unknown = codes "unknown"
state_name unsupported = codes "unsupported"
state_name obfuscated = codes "obfuscated"
state_name read_only = codes "read_only"
state_name appendable = codes "appendable"
state_name editable = codes "editable"

pub record ScriptMetaEditCapability : Type 0 where
  pub has_scriptmeta : Bool
  pub has_scriptmeta_edit_password : Bool
  pub is_file_locked : Bool
  pub is_read_only : Bool
  pub can_edit_scriptmeta : Bool
  pub can_append_scriptmeta : Bool
  pub scriptmeta_edit_state : ScriptMetaEditState

unfoldable pub is_editable : ScriptMetaEditState → Bool
is_editable state = elim state [ editable ↦ true | _ ↦ false ]

unfoldable pub is_appendable : ScriptMetaEditState → Bool
is_appendable state = elim state [ appendable ↦ true | _ ↦ false ]

pub is_unknown : ScriptMetaEditState → Bool
is_unknown state = elim state [ unknown ↦ true | _ ↦ false ]

unfoldable pub is_obfuscated : ScriptMetaEditState → Bool
is_obfuscated state = elim state [ obfuscated ↦ true | _ ↦ false ]

unfoldable pub is_unsupported : ScriptMetaEditState → Bool
is_unsupported state = elim state [ unsupported ↦ true | _ ↦ false ]

-- What the operating system tells of a path: `fs::metadata(path)`, if it succeeds, with the lock flags
-- (none but on macOS), the permissions and the kind of the file, and whether the parent directory
-- is read-only (never on Windows).
pub record FileMetadata : Type 0 where
  pub has_lock_flags : Bool
  pub is_readonly : Bool
  pub is_file : Bool

pub record Files : Type 0 where
  pub metadata : FilePath → Option FileMetadata
  pub parent_directory_is_read_only : FilePath → Bool

pub record FileWriteState : Type 0 where
  pub is_file_locked : Bool
  pub is_read_only : Bool
  pub is_special_file : Bool

unfoldable pub write_state : Bool → Option FileMetadata → FileWriteState
write_state parent_read_only none = record {
  is_file_locked = false;
  is_read_only = true;
  is_special_file = false;
}
write_state parent_read_only (some m) = record {
  is_file_locked = m.has_lock_flags;
  is_read_only = m.has_lock_flags || m.is_readonly || parent_read_only;
  is_special_file = not m.is_file;
}

unfoldable pub file_write_state : Files → FilePath → FileWriteState
file_write_state files path =
    write_state (files.parent_directory_is_read_only path) (files.metadata path)

-- `ScriptMetaEditCapability::from_state`.
unfoldable pub from_state :
    ScriptMetaEditState → Bool → Bool → FileWriteState → ScriptMetaEditCapability
from_state state has_scriptmeta has_scriptmeta_edit_password file_state = record {
  has_scriptmeta = has_scriptmeta;
  has_scriptmeta_edit_password = has_scriptmeta_edit_password;
  is_file_locked = file_state.is_file_locked;
  is_read_only = file_state.is_read_only;
  can_edit_scriptmeta = is_editable state;
  can_append_scriptmeta = is_appendable state;
  scriptmeta_edit_state = state;
}

module _ (from_utf8_lossy : List ℕ → Text) (files : Files) where
  unfoldable pub edit_state : FilePath → Option (List ℕ) → Bool → Bool → ScriptMetaEditState
  edit_state path prefix_bytes metadata_state_known has_scriptmeta =
      if is_jsxbin_obfuscated_script from_utf8_lossy path prefix_bytes
      then obfuscated
      else if not (supports_scriptmeta_write from_utf8_lossy path)
          || (file_write_state files path).is_special_file
      then unsupported
      else if not metadata_state_known
      then unknown
      else if (file_write_state files path).is_read_only
      then read_only
      else if has_scriptmeta
      then editable
      else appendable

  unfoldable pub scriptmeta_edit_capability :
      FilePath → Option (List ℕ) → Bool → Bool → Bool → ScriptMetaEditCapability
  scriptmeta_edit_capability path prefix_bytes metadata_state_known has_scriptmeta
        has_scriptmeta_edit_password =
      from_state (edit_state path prefix_bytes metadata_state_known has_scriptmeta) has_scriptmeta
        has_scriptmeta_edit_password (file_write_state files path)

  unfoldable pub scriptmeta_edit_capability_from_file_list_probe :
      FilePath → Option (List ℕ) → ScriptMetaEditCapability
  scriptmeta_edit_capability_from_file_list_probe path prefix_bytes =
      scriptmeta_edit_capability path prefix_bytes false false false

  unfoldable pub scriptmeta_edit_capability_from_metadata :
      FilePath → Option (List ℕ) → Bool → Bool → ScriptMetaEditCapability
  scriptmeta_edit_capability_from_metadata path prefix_bytes has_scriptmeta
        has_scriptmeta_edit_password =
      scriptmeta_edit_capability path prefix_bytes true has_scriptmeta has_scriptmeta_edit_password

  pub scriptmeta_edit_capability_from_cached_metadata :
      FilePath → ScriptMetaEditState → Bool → Bool → ScriptMetaEditCapability
  scriptmeta_edit_capability_from_cached_metadata path previous_state has_scriptmeta
        has_scriptmeta_edit_password =
      if is_obfuscated previous_state
      then from_state obfuscated has_scriptmeta has_scriptmeta_edit_password
          (file_write_state files path)
      else scriptmeta_edit_capability path none (not (is_unknown previous_state)) has_scriptmeta
          has_scriptmeta_edit_password
