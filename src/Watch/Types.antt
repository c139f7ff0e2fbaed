-- ===== src/Watch/Types.antt =====
-- The types of src/watcher/policy.rs, of the first part of src/watcher/plan.rs, and the fields of
-- src/catalog/root.rs that the plan reads. Maps and sets are lists in the order of their keys.
use scriptmetakit.Chars.{Text}
use scriptmetakit.Paths.{FilePath}
use scriptmetakit.Prelude.{ℕ, Bool, List, Option}

abbrev pub RootId : Type 0
RootId = Text

pub data WatchPolicy : Type 0 where
  disabled visible_only all_registered manual : WatchPolicy

pub data MonitorRootStrategy : Type 0 where
  exact_roots deduplicate_nested_roots platform_recommended : MonitorRootStrategy

pub data OverflowPolicy : Type 0 where
  mark_affected_roots_dirty mark_all_roots_dirty : OverflowPolicy

-- The fields of a registration that the watch plan and the routing read.
pub record RootRegistration : Type 0 where
  pub root_id : RootId
  pub path : FilePath
  pub watch_policy : WatchPolicy

pub record PhysicalWatchRoot : Type 0 where
  pub path : FilePath
  pub covers_root_ids : List RootId

pub record LogicalWatchRoot : Type 0 where
  pub root_id : RootId
  pub path : FilePath
  pub physical_index : Option ℕ
  pub active : Bool

pub record WatchPlan : Type 0 where
  pub physical_roots : List PhysicalWatchRoot
  pub logical_roots : List LogicalWatchRoot
  pub debounce_delay_millis : ℕ
  pub max_delivery_delay_millis : ℕ
  pub native_event_latency_millis : ℕ
  pub max_pending_paths : ℕ
  pub supported_extensions : List Text
  pub skip_hidden_paths : Bool
  pub skip_package_paths : Bool

pub record RawChangeBatch : Type 0 where
  pub paths : List FilePath
  pub overflowed : Bool

pub data WatchPathEventKind : Type 0 where
  added modified removed directory_changed root_changed overflow : WatchPathEventKind

pub record WatchPathEvent : Type 0 where
  pub root_id : RootId
  pub path : FilePath
  pub kind : WatchPathEventKind
  pub is_directory : Bool
  pub rescan_directory : FilePath

pub data WatchIgnoreReason : Type 0 where
  outside_root hidden_path package_path unsupported_extension not_relevant : WatchIgnoreReason

pub record IgnoredWatchPath : Type 0 where
  pub root_id : Option RootId
  pub path : FilePath
  pub reason : WatchIgnoreReason

pub data WatchRenameConfidence : Type 0 where
  possible : WatchRenameConfidence

pub record WatchRenameCandidate : Type 0 where
  pub root_id : RootId
  pub old_path : FilePath
  pub new_path : FilePath
  pub confidence : WatchRenameConfidence

pub data WatchRescanReason : Type 0 where
  changed_path directory_changed root_changed overflow too_many_dirty_directories :
      WatchRescanReason

pub record WatchRescanTarget : Type 0 where
  pub root_id : RootId
  pub path : FilePath
  pub reason : WatchRescanReason

pub record RootChange : Type 0 where
  pub root_id : RootId
  pub dirty_directories : List FilePath
  pub rescan_targets : List WatchRescanTarget
  pub metadata_may_have_changed : Bool
  pub requires_full_rescan : Bool

pub record RootChangeBatch : Type 0 where
  pub paths : List FilePath
  pub overflowed : Bool
  pub affected_roots : List RootChange
  pub events : List WatchPathEvent
  pub ignored_paths : List IgnoredWatchPath
  pub rename_candidates : List WatchRenameCandidate
