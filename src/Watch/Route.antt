-- ===== src/Watch/Route.antt =====
-- The parts of `route_change_batch` of src/watcher/plan.rs: what a changed path means for a root.
-- The resolution of links, src/scanner/path_resolution.rs, is the argument `is_resolved_link`.
pub mod Inner
pub mod Rename
pub mod Batch
use scriptmetakit.Chars.{Text, codes, text_eq, to_ascii_lowercase}
use scriptmetakit.Extensions.{ExtensionPolicy, contains_path, extension, name_extension}
use scriptmetakit.Paths.{
  FilePath, Component, root_dir, cur_dir, parent_dir, normal, parent, path_eq, strip_path_prefix,
}
use scriptmetakit.Prelude.{
  ℕ, Bool, true, false, not, ◌&&◌, ◌||◌, List, [], ◌∷◌, ◌++◌, map, filter, Option, none, some, ◌==◌,
  if◌then◌else◌, any, is_some,
}
use scriptmetakit.Watch.Files.{
  FileSystem, normalize_path, normalize_reference_source, path_is_same_or_child, path_affects_root,
}
use scriptmetakit.Watch.Types.{
  RootId, OverflowPolicy, WatchPathEvent, WatchPathEventKind, WatchIgnoreReason, hidden_path,
  package_path, unsupported_extension, not_relevant, WatchRescanTarget, WatchRescanReason,
  changed_path,
}

-- `ChangeRoutingOptions`. Its scanner options serve the resolution of links only.
pub record ChangeRoutingOptions : Type 0 where
  pub extensions : ExtensionPolicy
  pub skip_hidden_paths : Bool
  pub skip_package_paths : Bool
  pub known_file_paths : List FilePath
  pub known_directory_paths : List FilePath
  pub resolved_targets_by_root : List (RootId × List FilePath)
  pub resolved_sources_by_root : List (RootId × List FilePath)
  pub overflow_policy : OverflowPolicy
  pub max_deferred_dirty_directories : ℕ

abbrev pub has_path : List FilePath → FilePath → Bool
has_path paths path = any (λ p. path_eq p path) paths

relative_change_path : FilePath → FilePath → FilePath
relative_change_path path root_path = elim (strip_path_prefix path root_path) [
  | some rest ↦ rest
  | none ↦ path
]

starts_with_dot : Text → Bool
starts_with_dot [] = false
starts_with_dot (c ∷ s) = c == b'.'

hidden_component : Component → Bool
hidden_component root_dir = false
hidden_component cur_dir = true
hidden_component parent_dir = true
hidden_component (normal name) = starts_with_dot name

path_has_hidden_component : FilePath → FilePath → Bool
path_has_hidden_component path root_path =
    any hidden_component (relative_change_path path root_path)

abbrev package_extensions : List Text
package_extensions =
    codes "app" ∷ codes "bundle" ∷ codes "framework" ∷ codes "plugin" ∷ codes "appex" ∷ []

package_name : Text → Bool
package_name name = elim (name_extension (some name)) [
  | none ↦ false
  | some e ↦ any (text_eq (to_ascii_lowercase e)) package_extensions
]

package_component : Component → Bool
package_component root_dir = false
package_component cur_dir = false
package_component parent_dir = false
package_component (normal name) = package_name name

path_has_package_component : FilePath → FilePath → Bool
path_has_package_component path root_path =
    any package_component (relative_change_path path root_path)

-- `Ok(())` is `none`.
pub observe_change_path_visibility : FilePath → FilePath → Bool → Bool → Option WatchIgnoreReason
observe_change_path_visibility path root_path skip_hidden_paths skip_package_paths =
    if skip_hidden_paths && path_has_hidden_component path root_path
    then some hidden_path
    else if skip_package_paths && path_has_package_component path root_path
    then some package_path
    else none

module _ (fs : FileSystem) (options : ChangeRoutingOptions) where
  pub observe_change_path : FilePath → FilePath → Option WatchIgnoreReason
  observe_change_path path root_path =
      elim (observe_change_path_visibility path root_path options.skip_hidden_paths
        options.skip_package_paths) [
          | some reason ↦ some reason
          | none ↦
              if contains_path options.extensions path
                || fs.is_dir path
                || has_path options.known_directory_paths path
              then none
              else if is_some (extension path)
              then some unsupported_extension
              else some not_relevant
        ]

  pub rescan_directory_for_path : FilePath → FilePath → Bool → FilePath
  rescan_directory_for_path path root_path is_directory =
      if path_eq path root_path || is_directory
      then path
      else elim (parent path) [ some up ↦ up | none ↦ root_path ]

  event_kind : Bool → Bool → Bool → Bool → WatchPathEventKind
  event_kind is_root exists is_directory is_known_file =
      if is_root
      then WatchPathEventKind.root_changed
      else if not exists
      then WatchPathEventKind.removed
      else if is_directory
      then WatchPathEventKind.directory_changed
      else if is_known_file
      then WatchPathEventKind.modified
      else WatchPathEventKind.added

  pub watch_path_event : RootId → FilePath → FilePath → WatchPathEvent
  watch_path_event root_id path root_path =
      let normalized_path = normalize_reference_source fs path in
      let exists = fs.exists normalized_path in
      let is_directory =
        exists && fs.is_dir normalized_path
        || has_path options.known_directory_paths normalized_path in
      record {
        root_id = root_id;
        path = normalized_path;
        kind =
            event_kind (path_eq normalized_path root_path) exists is_directory
              (has_path options.known_file_paths normalized_path);
        is_directory = is_directory;
        rescan_directory = rescan_directory_for_path normalized_path root_path is_directory;
      }

unfoldable pub rescan_targets_for_change : RootId → List FilePath → Bool → List WatchRescanTarget
rescan_targets_for_change root_id dirty_directories requires_full_rescan =
    map
      (λ path. record {
        root_id = root_id;
        path = path;
        reason = if requires_full_rescan then WatchRescanReason.root_changed else changed_path;
      })
      dirty_directories

dirty_directory : FilePath → FilePath → FilePath
dirty_directory root_path path =
    if path_is_same_or_child path root_path
    then elim (parent path) [ some up ↦ up | none ↦ root_path ]
    else root_path

pub dirty_directories_for_paths : List FilePath → FilePath → List FilePath
dirty_directories_for_paths paths root_path =
    map (dirty_directory root_path) (filter (λ path. path_affects_root path root_path) paths)
