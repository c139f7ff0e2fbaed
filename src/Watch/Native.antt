-- ===== src/Watch/Native.antt =====
-- src/watcher/native.rs: the paths that the worker of the native watcher has pending.
pub mod Worker
use scriptmetakit.Chars.{Text, codes, text_eq, to_ascii_lowercase, eq_ignore_ascii_case}
use scriptmetakit.Extensions.{ExtensionPolicy, contains_path, extension, name_extension}
use scriptmetakit.Paths.{
  FilePath, Component, root_dir, cur_dir, parent_dir, normal, compare_path, path_eq,
  strip_path_prefix,
}
use scriptmetakit.Prelude.{
  ℕ, Bool, true, false, not, ◌&&◌, ◌||◌, List, [], ◌∷◌, ◌++◌, Option, none, some, ◌==◌, ltb,
  if◌then◌else◌, any, is_some, length, Ordering,
}

pub data NativeFsEvent : Type 0 where
  changed : FilePath → Bool → Bool → Bool → NativeFsEvent
  overflow : NativeFsEvent

-- The last field is `cfg!(windows)`.
pub record NativeEventFilter : Type 0 where
  pub overflow_paths : List FilePath
  pub max_pending_paths : ℕ
  pub watch_roots : List FilePath
  pub supported_extensions : ExtensionPolicy
  pub skip_hidden_paths : Bool
  pub skip_package_paths : Bool
  pub on_windows : Bool

-- `sort` on paths, where equal paths cannot be told apart, and `dedup`.
pub placed : Ordering → FilePath → FilePath → List FilePath → List FilePath → List FilePath
placed Ordering.gt path x xs later = x ∷ later
placed Ordering.lt path x xs later = path ∷ x ∷ xs
placed Ordering.eq path x xs later = path ∷ x ∷ xs

pub insert_path : FilePath → List FilePath → List FilePath
insert_path path [] = path ∷ []
insert_path path (x ∷ xs) = placed (compare_path path x) path x xs (insert_path path xs)

pub sort_paths : List FilePath → List FilePath
sort_paths [] = []
sort_paths (path ∷ paths) = insert_path path (sort_paths paths)

pub keep_path : FilePath → List FilePath → List FilePath
keep_path path [] = path ∷ []
keep_path path (x ∷ xs) = if path_eq path x then x ∷ xs else path ∷ x ∷ xs

pub dedup_paths : List FilePath → List FilePath
dedup_paths [] = []
dedup_paths (path ∷ paths) = keep_path path (dedup_paths paths)

pub relative_event_path : FilePath → List FilePath → FilePath
relative_event_path path [] = path
relative_event_path path (root ∷ roots) = elim (strip_path_prefix path root) [
  | some relative ↦ relative
  | none ↦ relative_event_path path roots
]

-- `component.as_os_str().as_encoded_bytes().starts_with(b".")`
is_hidden_name : Text → Bool
is_hidden_name [] = false
is_hidden_name (c ∷ name) = c == b'.'

is_hidden_component : Component → Bool
is_hidden_component root_dir = false
is_hidden_component cur_dir = true
is_hidden_component parent_dir = true
is_hidden_component (normal name) = is_hidden_name name

pub path_has_hidden_component : FilePath → List FilePath → Bool
path_has_hidden_component path watch_roots =
    any is_hidden_component (relative_event_path path watch_roots)

abbrev package_extensions : List Text
package_extensions =
    codes "app" ∷ codes "bundle" ∷ codes "framework" ∷ codes "plugin" ∷ codes "appex" ∷ []

is_package_extension : Option Text → Bool
is_package_extension none = false
is_package_extension (some e) = any (text_eq (to_ascii_lowercase e)) package_extensions

is_package_component : Component → Bool
is_package_component (normal name) = is_package_extension (name_extension (some name))
is_package_component root_dir = false
is_package_component cur_dir = false
is_package_component parent_dir = false

pub path_has_package_component : FilePath → List FilePath → Bool
path_has_package_component path watch_roots =
    any is_package_component (relative_event_path path watch_roots)

has_shortcut_extension : Option Text → Bool
has_shortcut_extension none = false
has_shortcut_extension (some e) = eq_ignore_ascii_case e (codes "lnk")

-- `is_windows_shortcut_path` of src/scanner/path_resolution.rs.
pub is_windows_shortcut_path : Bool → FilePath → Bool
is_windows_shortcut_path on_windows path = on_windows && has_shortcut_extension (extension path)

module _ (path_is_existing_directory : FilePath → Bool) where
  may_be_folder : FilePath → Bool → Bool → Bool → Bool
  may_be_folder path may_change_directory_tree identifies_folder removes_path =
      if not may_change_directory_tree
      then false
      else if removes_path
      then true
      else identifies_folder || path_is_existing_directory path

  pub should_keep_event_path : FilePath → Bool → Bool → Bool → NativeEventFilter → Bool
  should_keep_event_path path may_change_directory_tree identifies_folder removes_path filter =
      if filter.skip_hidden_paths && path_has_hidden_component path filter.watch_roots
      then false
      else if filter.skip_package_paths && path_has_package_component path filter.watch_roots
      then false
      else if contains_path filter.supported_extensions path
          || is_windows_shortcut_path filter.on_windows path
      then true
      else if not (is_some (extension path))
      then true
      else may_be_folder path may_change_directory_tree identifies_folder removes_path

-- `pending_paths` and `pending_overflowed`.
pub record Pending : Type 0 where
  pub paths : List FilePath
  pub overflowed : Bool

pub pending_exceeded_max : List FilePath → ℕ → Bool
pending_exceeded_max paths max_pending_paths =
    ltb 0 max_pending_paths && ltb max_pending_paths (length paths)

pub mark_pending_overflowed : List FilePath → Pending
mark_pending_overflowed overflow_paths = record {
  paths = dedup_paths (sort_paths overflow_paths);
  overflowed = true;
}

-- What is pending after an event, whether that changed it, and whether to flush at once.
pub record Appended : Type 0 where
  pub pending : Pending
  pub pending_changed : Bool
  pub flush_now : Bool

pub with_path : FilePath → Pending → Pending
with_path path p = record p { paths = dedup_paths (sort_paths (p.paths ++ path ∷ [])) }

pub append_path : FilePath → Pending → NativeEventFilter → Appended
append_path path p filter =
    if pending_exceeded_max (with_path path p).paths filter.max_pending_paths
    then record {
      pending = mark_pending_overflowed filter.overflow_paths;
      pending_changed = true;
      flush_now = true;
    }
    else record { pending = with_path path p; pending_changed = true; flush_now = false }

module _ (path_is_existing_directory : FilePath → Bool) where
  pub append_event_to_pending : NativeFsEvent → Pending → NativeEventFilter → Appended
  append_event_to_pending (changed path may_change_directory_tree identifies_folder removes_path) p
        filter =
      if not (
        should_keep_event_path path_is_existing_directory path may_change_directory_tree
          identifies_folder removes_path filter)
      then record { pending = p; pending_changed = false; flush_now = false }
      else append_path path p filter
  append_event_to_pending overflow p filter = record {
    pending = mark_pending_overflowed filter.overflow_paths;
    pending_changed = true;
    flush_now = false;
  }
