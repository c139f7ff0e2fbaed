-- ===== src/Watch/Plan/Build/Tests.antt =====
-- Runs of src/watcher/plan.rs, and the theorems at concrete inputs.
use scriptmetakit.Chars.{codes, text_eq}
use scriptmetakit.Paths.{
  FilePath, root_dir, normal, path_eq, starts_with, component_eq, compare_path, compare_component,
  compare_text,
}
use scriptmetakit.Prelude.{ℕ, ◌≡◌, ◌≢◌, refl, true, [], ◌∷◌, some, none, Elem, inl}
use scriptmetakit.Watch.Files.{
  FileSystem, normalize_path, native_watch_directory, path_is_same_or_child,
}
use scriptmetakit.Watch.Plan.Build.Unwatched.{IsWatchedId, plan_ids_watched}
use scriptmetakit.Watch.Plan.Build.Watched.{watched_root_covered, watched_target_covered}
use scriptmetakit.Watch.Plan.Build.{
  PlanInput, is_watched, build_watch_plan_with_resolved_targets, candidates, candidates_of_roots,
  candidates_of_sources, root_candidates, target_candidates,
}
use scriptmetakit.Watch.Plan.Cover.{CoveredAt}
use scriptmetakit.Watch.Plan.Ids.{PhysicalIds, LogicalIds}
use scriptmetakit.Watch.Plan.Nesting.{NotNested, paths_of, physical_roots-NotNested}
use scriptmetakit.Watch.Plan.{
  should_watch_root, sort_candidates, insert_candidate, compare_candidate, add_candidates,
  add_candidate, physical_index_by, physical_index_for_deduplicated_path,
  physical_index_for_exact_path, position, cover_at, cover_root, logical_roots_of, empty,
}
use scriptmetakit.Watch.Types.{
  RootRegistration, all_registered, manual, deduplicate_nested_roots, exact_roots,
}

-- Everything exists and can be read, and every path is canonical.
abbrev disk : FileSystem
disk = record {
  canonicalize = λ path. some path;
  read_dir_ok = λ path. true;
  exists = λ path. true;
  is_dir = λ path. true;
}

abbrev scripts : FilePath
scripts = root_dir ∷ normal (codes "scripts") ∷ []

abbrev nested : FilePath
nested = root_dir ∷ normal (codes "scripts") ∷ normal (codes "app") ∷ []

abbrev outer : RootRegistration
outer = record { root_id = codes "a"; path = scripts; watch_policy = all_registered }

abbrev inner : RootRegistration
inner = record { root_id = codes "b"; path = nested; watch_policy = all_registered }

abbrev request : PlanInput
request = record {
  roots = inner ∷ outer ∷ [];
  global_policy = all_registered;
  strategy = deduplicate_nested_roots;
  visible_root_id = none;
  resolved_targets_by_root = (codes "b", (root_dir ∷ []) ∷ []) ∷ [];
  resolved_sources_by_root = [];
  paused_root_ids = [];
}

different : deduplicate_nested_roots ≢ exact_roots
different h = cc

physical_roots-NotNested_example :
    NotNested (paths_of (build_watch_plan_with_resolved_targets disk request).physical_roots)
physical_roots-NotNested_example = physical_roots-NotNested disk request different

-- One root is paused, and one is excluded by its policy.
abbrev off : RootRegistration
off = record { root_id = codes "c"; path = root_dir ∷ []; watch_policy = manual }

abbrev partly_off : PlanInput
partly_off = record request { roots = inner ∷ off ∷ outer ∷ []; paused_root_ids = codes "b" ∷ [] }

plan_ids_watched_example :
    PhysicalIds
      (IsWatchedId partly_off)
      (build_watch_plan_with_resolved_targets disk partly_off).physical_roots
    × LogicalIds
        (IsWatchedId partly_off)
        (build_watch_plan_with_resolved_targets disk partly_off).logical_roots
plan_ids_watched_example = plan_ids_watched disk partly_off

inner_watched : is_watched request inner ≡ true
unfolding is_watched should_watch_root
inner_watched = refl

-- The inner root is covered by the directory of the outer one.
watched_root_covered_example :
    let plan = build_watch_plan_with_resolved_targets disk request in
    (index : ℕ) × CoveredAt plan.physical_roots (codes "b") (normalize_path disk nested) index
    × Elem
        (record {
          root_id = codes "b";
          path = normalize_path disk nested;
          physical_index = some index;
          active = true;
        })
        plan.logical_roots
watched_root_covered_example = watched_root_covered disk request inner refl inner_watched (inl refl)

watched_target_covered_example :
    (index : ℕ) × CoveredAt
      (build_watch_plan_with_resolved_targets disk request).physical_roots
      (codes "b")
      (normalize_path disk (root_dir ∷ []))
      index
unfolding text_eq
watched_target_covered_example =
    watched_target_covered disk request inner (root_dir ∷ []) refl inner_watched (inl refl)
      (inl refl)

nested_plan :
    paths_of (build_watch_plan_with_resolved_targets disk request).physical_roots
    ≡ (root_dir ∷ []) ∷ []
unfolding build_watch_plan_with_resolved_targets candidates candidates_of_roots
    candidates_of_sources root_candidates target_candidates sort_candidates insert_candidate
    compare_candidate add_candidates add_candidate physical_index_by
    physical_index_for_deduplicated_path physical_index_for_exact_path position cover_at cover_root
    logical_roots_of is_watched should_watch_root empty normalize_path native_watch_directory
    path_is_same_or_child path_eq starts_with component_eq text_eq compare_path compare_component
    compare_text
nested_plan = refl
