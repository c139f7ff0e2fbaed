-- ===== src/Watch/Route/Inner.antt =====
-- The inner loop of `route_change_batch` of src/watcher/plan.rs: every changed path is held against
-- one root.
use scriptmetakit.Extensions.{contains_path}
use scriptmetakit.Paths.{FilePath, parent}
use scriptmetakit.Prelude.{
  Bool, true, false, not, ◌&&◌, ◌||◌, List, [], ◌∷◌, Option, none, some, if◌then◌else◌, is_some,
}
use scriptmetakit.Watch.Files.{FileSystem, path_affects_root}
use scriptmetakit.Watch.Plan.Build.{lookup_paths}
use scriptmetakit.Watch.Route.{
  ChangeRoutingOptions, observe_change_path_visibility, observe_change_path, watch_path_event,
}
use scriptmetakit.Watch.Types.{
  RootId, WatchPathEvent, WatchPathEventKind, WatchIgnoreReason, unsupported_extension,
  not_relevant, hidden_path, package_path, outside_root, IgnoredWatchPath,
}

find_path : (FilePath → Bool) → List FilePath → Option FilePath
find_path p [] = none
find_path p (x ∷ xs) = let later = find_path p xs in if p x then some x else later

-- What the body of the inner loop does with a path: `continue` before it is matched; pushed to
-- `filtered_paths` with its event, and with the two flags it sets; or pushed to `ignored_paths`.
pub data Routed : Type 0 where
  unmatched : Routed
  accepted : Bool → Bool → WatchPathEvent → Routed
  refused : WatchIgnoreReason → Routed

accept_or_refuse : Bool → Bool → WatchPathEvent → Option WatchIgnoreReason → Routed
accept_or_refuse target source event none = accepted target source event
accept_or_refuse target source event (some reason) = refused reason

-- A removed path that matched a target is not refused for its extension.
excuse : Bool → Option WatchIgnoreReason → Option WatchIgnoreReason
excuse excused none = none
excuse excused (some unsupported_extension) = if excused then none else some unsupported_extension
excuse excused (some not_relevant) = if excused then none else some not_relevant
excuse excused (some hidden_path) = some hidden_path
excuse excused (some package_path) = some package_path
excuse excused (some outside_root) = some outside_root

or_root : Option FilePath → FilePath → FilePath
or_root none root_path = root_path
or_root (some path) root_path = path

source_scope : Option FilePath → Option FilePath → FilePath → FilePath
source_scope none target root_path = or_root target root_path
source_scope (some source) target root_path = elim (parent source) [
  | some up ↦ up
  | none ↦ or_root target root_path
]

is_empty_list : List FilePath → Bool
is_empty_list [] = true
is_empty_list (_ ∷ _) = false

-- The variables that the inner loop changes.
pub record RootPaths : Type 0 where
  pub filtered_paths : List FilePath
  pub root_events : List WatchPathEvent
  pub resolved_target_affected : Bool
  pub resolved_source_affected : Bool
  pub matched : List FilePath
  pub ignored : List IgnoredWatchPath

unfoldable pub add_routed : RootId → FilePath → Routed → RootPaths → RootPaths
add_routed root_id path unmatched later = later
add_routed root_id path (accepted target source event) later = record {
  filtered_paths = path ∷ later.filtered_paths;
  root_events = event ∷ later.root_events;
  resolved_target_affected = target || later.resolved_target_affected;
  resolved_source_affected = source || later.resolved_source_affected;
  matched = path ∷ later.matched;
  ignored = later.ignored;
}
add_routed root_id path (refused reason) later = record later {
  matched = path ∷ later.matched;
  ignored = record { root_id = some root_id; path = path; reason = reason } ∷ later.ignored;
}

abbrev pub no_paths : RootPaths
no_paths = record {
  filtered_paths = [];
  root_events = [];
  resolved_target_affected = false;
  resolved_source_affected = false;
  matched = [];
  ignored = [];
}

module _ (fs : FileSystem) (is_resolved_link : FilePath → Bool)
    (options : ChangeRoutingOptions) where
  -- `matches_source`.
  source_matches : Bool → Option FilePath → Option FilePath → List FilePath → FilePath → Bool
  source_matches affects target source targets path =
      is_some source
      || (affects || elim target [ none ↦ false | some t ↦ fs.is_dir t ])
        && not (contains_path options.extensions path)
        && is_resolved_link path
      || affects
        && not (is_empty_list targets)
        && not (fs.exists path)
        && not (contains_path options.extensions path)

  overflow_event : RootId → FilePath → FilePath → WatchPathEvent
  overflow_event root_id path root_path = record {
    root_id = root_id;
    path = path;
    kind = WatchPathEventKind.overflow;
    is_directory = true;
    rescan_directory = root_path;
  }

  route_source : RootId → FilePath → FilePath → FilePath → Routed
  route_source root_id root_path scope path =
      accept_or_refuse false true (watch_path_event fs options root_id path root_path) (
        observe_change_path_visibility path scope options.skip_hidden_paths
          options.skip_package_paths)

  route_observed : RootId → FilePath → Option FilePath → FilePath → Routed
  route_observed root_id root_path target path =
      let observation_root = or_root target root_path in
      accept_or_refuse (is_some target) false
        (watch_path_event fs options root_id path observation_root)
        (excuse (is_some target && not (fs.exists path))
          (observe_change_path fs options path observation_root))

  route_matched :
      Bool → RootId → FilePath → Option FilePath → Option FilePath → Bool → FilePath → Routed
  route_matched overflowed root_id root_path target source from_source path =
      if overflowed
      then accepted (is_some target) from_source (overflow_event root_id path root_path)
      else if from_source
      then route_source root_id root_path (source_scope source target root_path) path
      else route_observed root_id root_path target path

  -- The body of the inner loop.
  pub route_path : Bool → RootId → FilePath → FilePath → Routed
  route_path overflowed root_id root_path path =
      let affects = path_affects_root path root_path in
      let targets = lookup_paths root_id options.resolved_targets_by_root in
      let sources = lookup_paths root_id options.resolved_sources_by_root in
      let target = find_path (path_affects_root path) targets in
      let source = find_path (path_affects_root path) sources in
      let from_source = source_matches affects target source targets path in
      if affects || is_some target || from_source
      then route_matched overflowed root_id root_path target source from_source path
      else unmatched

  -- The inner loop, with what the later paths add.
  unfoldable pub route_paths : Bool → RootId → FilePath → List FilePath → RootPaths
  route_paths overflowed root_id root_path [] = no_paths
  route_paths overflowed root_id root_path (path ∷ paths) =
      add_routed root_id path (route_path overflowed root_id root_path path)
        (route_paths overflowed root_id root_path paths)
