-- ===== src/Watch/Route/Batch.antt =====
-- `route_change_batch` of src/watcher/plan.rs: every changed path is held against every root.
pub mod Accounted
pub mod Rescans
mod Tests
use scriptmetakit.Chars.{Text, text_eq}
use scriptmetakit.Extensions.{extension}
use scriptmetakit.Paths.{FilePath, parent, path_eq, compare_path}
use scriptmetakit.Prelude.{
  ℕ, Bool, true, false, not, ◌&&◌, ◌||◌, List, [], ◌∷◌, ◌++◌, map, filter, Option, none, some, ltb,
  if◌then◌else◌, any, length, Ordering,
}
use scriptmetakit.Watch.Files.{
  FileSystem, normalize_path, normalize_reference_source, path_affects_root,
}
use scriptmetakit.Watch.Route.Rename.{rename_candidates_from_events}
use scriptmetakit.Watch.Route.Inner.{RootPaths, route_paths}
use scriptmetakit.Watch.Route.{
  ChangeRoutingOptions, rescan_targets_for_change, dirty_directories_for_paths, has_path,
}
use scriptmetakit.Watch.Types.{
  RootId, RootRegistration, OverflowPolicy, mark_all_roots_dirty, mark_affected_roots_dirty,
  RawChangeBatch, WatchPathEvent, WatchPathEventKind, removed, added, modified, directory_changed,
  root_changed, overflow, outside_root, IgnoredWatchPath, WatchRenameCandidate, possible,
  RootChange, RootChangeBatch,
}

-- A `BTreeSet` of paths, and `sort` followed by `dedup`: increasing, each path once.
insert_path : FilePath → List FilePath → List FilePath
insert_path path [] = path ∷ []
insert_path path (x ∷ xs) =
    let later = insert_path path xs in
    elim (compare_path path x) [
      | Ordering.lt ↦ path ∷ x ∷ xs
      | Ordering.eq ↦ x ∷ xs
      | Ordering.gt ↦ x ∷ later
    ]

pub path_set : List FilePath → List FilePath
path_set [] = []
path_set (path ∷ paths) = insert_path path (path_set paths)

is_empty_list : List FilePath → Bool
is_empty_list [] = true
is_empty_list (_ ∷ _) = false

marks_all : OverflowPolicy → Bool
marks_all mark_all_roots_dirty = true
marks_all mark_affected_roots_dirty = false

-- The variables that the outer loop changes, with what the later roots add.
pub record Collected : Type 0 where
  pub observed : List FilePath
  pub changes : List RootChange
  pub all_events : List WatchPathEvent
  pub ignored_paths : List IgnoredWatchPath
  pub matched_paths : List FilePath

module _ (fs : FileSystem) (is_resolved_link : FilePath → Bool)
    (options : ChangeRoutingOptions) where
  abbrev pub root_path_of : RootRegistration → FilePath
  root_path_of root = normalize_path fs root.path

  affects_root : Bool → FilePath → RootPaths → Bool
  affects_root overflowed root_path found =
      overflowed && marks_all options.overflow_policy
      || found.resolved_target_affected
      || found.resolved_source_affected
      || any (λ path. path_affects_root path root_path) found.filtered_paths

  found_directories : Bool → FilePath → RootPaths → List FilePath
  found_directories overflowed root_path found = path_set (
      if overflowed
      then root_path ∷ []
      else dirty_directories_for_paths found.filtered_paths root_path)

  needs_full_rescan : Bool → FilePath → RootPaths → List FilePath → Bool
  needs_full_rescan overflowed root_path found directories =
      overflowed
      || found.resolved_target_affected
      || found.resolved_source_affected
      || ltb options.max_deferred_dirty_directories (length directories)
      || has_path directories root_path

  change_of : Bool → RootId → List FilePath → RootPaths → Bool → RootChange
  change_of overflowed root_id dirty_directories found full = record {
    root_id = root_id;
    dirty_directories = dirty_directories;
    rescan_targets = rescan_targets_for_change root_id dirty_directories full;
    metadata_may_have_changed = overflowed || not (is_empty_list found.filtered_paths);
    requires_full_rescan = full;
  }

  pub root_change : Bool → RootId → FilePath → RootPaths → RootChange
  root_change overflowed root_id root_path found =
      let directories = found_directories overflowed root_path found in
      let full = needs_full_rescan overflowed root_path found directories in
      change_of overflowed root_id (if full then root_path ∷ [] else directories) found full

  add_root : Bool → RootRegistration → RootPaths → Collected → Collected
  add_root overflowed root found later =
      let affected = affects_root overflowed (root_path_of root) found in
      record {
        observed = found.filtered_paths ++ later.observed;
        changes =
            (if affected
              then root_change overflowed root.root_id (root_path_of root) found ∷ []
              else [])
            ++ later.changes;
        all_events = (if affected then found.root_events else []) ++ later.all_events;
        ignored_paths = found.ignored ++ later.ignored_paths;
        matched_paths = found.matched ++ later.matched_paths;
      }

  pub route_roots : Bool → List FilePath → List RootRegistration → Collected
  route_roots overflowed paths [] = record {
    observed = [];
    changes = [];
    all_events = [];
    ignored_paths = [];
    matched_paths = [];
  }
  route_roots overflowed paths (root ∷ roots) =
      add_root overflowed root
        (route_paths fs is_resolved_link options overflowed root.root_id (root_path_of root) paths)
        (route_roots overflowed paths roots)

  -- The paths that no root matched.
  pub outside : List FilePath → List FilePath → List IgnoredWatchPath
  outside matched_paths [] = []
  outside matched_paths (path ∷ paths) =
      (if has_path matched_paths path
        then []
        else record { root_id = none; path = path; reason = outside_root } ∷ [])
      ++ outside matched_paths paths

  pub route_change_batch : List RootRegistration → RawChangeBatch → RootChangeBatch
  route_change_batch roots raw =
      let normalized_paths = map (normalize_reference_source fs) raw.paths in
      let all = route_roots raw.overflowed normalized_paths roots in
      record {
        paths = path_set all.observed;
        overflowed = raw.overflowed;
        affected_roots = all.changes;
        events = all.all_events;
        ignored_paths = all.ignored_paths ++ outside all.matched_paths normalized_paths;
        rename_candidates = rename_candidates_from_events all.all_events;
      }
