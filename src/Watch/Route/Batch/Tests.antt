-- ===== src/Watch/Route/Batch/Tests.antt =====
-- A batch with a changed script, a renamed one and a path outside, and the theorems on it.
use scriptmetakit.Chars.{codes}
use scriptmetakit.Paths.{FilePath, root_dir, normal}
use scriptmetakit.Prelude.{
  Bool, true, false, List, [], ◌∷◌, Elem, inl, inr, ◌⊎◌, ◌↔◌, ◌≡◌, refl, some,
}
use scriptmetakit.Watch.Files.{FileSystem, normalize_reference_source}
use scriptmetakit.Watch.Route.Batch.Accounted.{IsIgnored, route_change_batch-IsKept}
use scriptmetakit.Watch.Route.Batch.{route_change_batch}
use scriptmetakit.Watch.Route.Rename.Pairs.{IsRename, rename_candidates_from_events_iff}
use scriptmetakit.Watch.Route.Rename.{rename_candidates_from_events, rename_of}
use scriptmetakit.Watch.Route.{ChangeRoutingOptions}
use scriptmetakit.Watch.Types.{
  RootRegistration, all_registered, RawChangeBatch, mark_affected_roots_dirty, WatchPathEvent,
  WatchPathEventKind, removed, added, WatchRenameCandidate,
}

-- Everything is a file that exists.
abbrev disk : FileSystem
disk = record {
  canonicalize = λ path. some path;
  read_dir_ok = λ path. false;
  exists = λ path. true;
  is_dir = λ path. false;
}

abbrev no_link : FilePath → Bool
no_link path = false

abbrev options : ChangeRoutingOptions
options = record {
  extensions = codes "js" ∷ [];
  skip_hidden_paths = true;
  skip_package_paths = true;
  known_file_paths = [];
  known_directory_paths = [];
  resolved_targets_by_root = [];
  resolved_sources_by_root = [];
  overflow_policy = mark_affected_roots_dirty;
  max_deferred_dirty_directories = 4;
}

abbrev scripts : FilePath
scripts = root_dir ∷ normal (codes "scripts") ∷ []

abbrev changed : FilePath
changed = root_dir ∷ normal (codes "scripts") ∷ normal (codes "art") ∷ normal (codes "a.js") ∷ []

abbrev elsewhere : FilePath
elsewhere = root_dir ∷ normal (codes "tmp") ∷ []

abbrev root : RootRegistration
root = record { root_id = codes "a"; path = scripts; watch_policy = all_registered }

abbrev batch : RawChangeBatch
batch = record { paths = elsewhere ∷ changed ∷ []; overflowed = false }

route_change_batch-IsKept_example :
    Elem
      (normalize_reference_source disk changed)
      (route_change_batch disk no_link options (root ∷ []) batch).paths
    ⊎ IsIgnored
        (normalize_reference_source disk changed)
        (route_change_batch disk no_link options (root ∷ []) batch).ignored_paths
route_change_batch-IsKept_example =
    route_change_batch-IsKept disk no_link options (root ∷ []) batch changed (inr (inl refl))

abbrev event : WatchPathEventKind → FilePath → WatchPathEvent
event kind path = record {
  root_id = codes "a";
  path = path;
  kind = kind;
  is_directory = false;
  rescan_directory = scripts;
}

abbrev events : List WatchPathEvent
events = event removed scripts ∷ event added elsewhere ∷ []

abbrev renamed : WatchRenameCandidate
renamed = rename_of (event removed scripts) (event added elsewhere)

rename_candidates_from_events_iff_example : Elem renamed (rename_candidates_from_events events) ↔ (
    (old new : WatchPathEvent) × Elem old events
    × Elem new events
    × IsRename old new
    × (renamed ≡ rename_of old new))
rename_candidates_from_events_iff_example = rename_candidates_from_events_iff events renamed
