-- ===== src/Watch/Route/Batch/Rescans.antt =====
-- The rescans that `route_change_batch` of src/watcher/plan.rs asks for.
use scriptmetakit.Paths.{FilePath}
use scriptmetakit.Prelude.{ℕ, ◌≤◌, ◌<◌, Bool, true, false, List, [], ◌∷◌, length, ◌≡◌, Elem, ◌⊎◌}
use scriptmetakit.Watch.Files.{FileSystem, normalize_path}
use scriptmetakit.Watch.Route.Batch.{path_set, root_path_of}
use scriptmetakit.Watch.Route.Inner.{RootPaths, route_paths}
use scriptmetakit.Watch.Route.{ChangeRoutingOptions, has_path, dirty_directories_for_paths}
use scriptmetakit.Watch.Types.{
  RootId, RootRegistration, RootChange, WatchRescanTarget, WatchRescanReason, changed_path,
}

-- The targets are the directories, each with the id of the root and the reason.
abbrev pub IsTargets : RootId → WatchRescanReason → List FilePath → List WatchRescanTarget → Type 0
IsTargets id reason [] [] = Unit
IsTargets id reason [] (target ∷ targets) = ⊥
IsTargets id reason (path ∷ paths) [] = ⊥
IsTargets id reason (path ∷ paths) (target ∷ targets) =
    (target.root_id ≡ id)
    × (target.path ≡ path)
    × (target.reason ≡ reason)
    × IsTargets id reason paths targets

-- What makes a root be scanned as a whole: lost events, a change of a resolved target or source, too
-- many directories, or the root among them.
abbrev pub IsCause : Bool → RootPaths → ℕ → FilePath → List FilePath → Type 0
IsCause overflowed found bound root_path directories =
    (overflowed ≡ true)
    ⊎ ((found.resolved_target_affected ≡ true)
        ⊎ ((found.resolved_source_affected ≡ true)
            ⊎ ((bound < length directories) ⊎ (has_path directories root_path ≡ true))))

-- Either the whole root is scanned again, and there is a cause, or there is none and the directories
-- are.
abbrev pub IsBounded :
    Bool → RootPaths → ℕ → RootId → FilePath → List FilePath → RootChange → Type 0
IsBounded overflowed found bound id root_path directories c =
    ((c.requires_full_rescan ≡ true)
      × IsCause overflowed found bound root_path directories
      × (c.dirty_directories ≡ root_path ∷ [])
      × IsTargets id WatchRescanReason.root_changed c.dirty_directories c.rescan_targets)
    ⊎ ((c.requires_full_rescan ≡ false)
        × (overflowed ≡ false)
        × (found.resolved_target_affected ≡ false)
        × (found.resolved_source_affected ≡ false)
        × (c.dirty_directories ≡ directories)
        × (length c.dirty_directories ≤ bound)
        × (has_path c.dirty_directories root_path ≡ false)
        × IsTargets id changed_path c.dirty_directories c.rescan_targets)

module _ (fs : FileSystem) (is_resolved_link : FilePath → Bool)
    (options : ChangeRoutingOptions) where
  -- The directories of the paths that concern a root, increasing and each once.
  abbrev pub directories_of : FilePath → RootPaths → List FilePath
  directories_of root_path found =
      path_set (dirty_directories_for_paths found.filtered_paths root_path)

  abbrev pub found_of : Bool → List FilePath → RootRegistration → RootPaths
  found_of overflowed paths root =
      route_paths fs is_resolved_link options overflowed root.root_id
        (root_path_of fs is_resolved_link options root) paths

  -- The change is one of a root among `roots`.
  abbrev pub IsChangeOf : Bool → List FilePath → List RootRegistration → RootChange → Type 0
  IsChangeOf overflowed paths roots c =
      (root : RootRegistration) × Elem root roots
      × (c.root_id ≡ root.root_id)
      × IsBounded overflowed (found_of overflowed paths root) options.max_deferred_dirty_directories
          root.root_id (normalize_path fs root.path)
          (directories_of (normalize_path fs root.path) (found_of overflowed paths root)) c
