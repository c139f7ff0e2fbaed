-- ===== src/Watch/Plan/Build.antt =====
-- `build_watch_plan_with_resolved_targets`: the candidates, and the plan made of them.
pub mod Watched
pub mod Unwatched
mod Tests
use scriptmetakit.Chars.{text_eq}
use scriptmetakit.Paths.{FilePath, parent}
use scriptmetakit.Prelude.{
  Bool, true, false, not, ◌&&◌, List, [], ◌∷◌, ◌++◌, map, Option, none, some, if◌then◌else◌, any,
}
use scriptmetakit.Watch.Files.{FileSystem, normalize_path, native_watch_directory}
use scriptmetakit.Watch.Plan.{
  Candidate, should_watch_root, is_off, empty, add_candidates, sort_candidates,
}
use scriptmetakit.Watch.Types.{
  RootId, WatchPolicy, MonitorRootStrategy, RootRegistration, WatchPlan,
}

-- The arguments of the function, maps as association lists.
pub record PlanInput : Type 0 where
  pub roots : List RootRegistration
  pub global_policy : WatchPolicy
  pub strategy : MonitorRootStrategy
  pub visible_root_id : Option RootId
  pub resolved_targets_by_root : List (RootId × List FilePath)
  pub resolved_sources_by_root : List (RootId × List FilePath)
  pub paused_root_ids : List RootId

abbrev pub lookup_paths : RootId → List (RootId × List FilePath) → List FilePath
lookup_paths id [] = []
lookup_paths id ((key, paths) ∷ rest) = if text_eq key id then paths else lookup_paths id rest

-- A root that is neither paused nor excluded by a policy.
pub is_watched : PlanInput → RootRegistration → Bool
is_watched input root =
    not (any (text_eq root.root_id) input.paused_root_ids)
    && should_watch_root root input.global_policy input.visible_root_id

module _ (fs : FileSystem) where
  abbrev with_watch_path : RootId → FilePath → Bool → Candidate
  with_watch_path id path logical = record {
    root_id = id;
    path = path;
    is_logical_root = logical;
    watch_path = native_watch_directory fs path;
  }

  target_candidates : RootId → List FilePath → List Candidate
  target_candidates id [] = []
  target_candidates id (target ∷ targets) =
      with_watch_path id (normalize_path fs target) false ∷ target_candidates id targets

  root_candidates : PlanInput → RootRegistration → List Candidate
  root_candidates input root =
      with_watch_path root.root_id (normalize_path fs root.path) true
      ∷ target_candidates root.root_id (lookup_paths root.root_id input.resolved_targets_by_root)

  -- The first loop.
  candidates_of_roots : PlanInput → List RootRegistration → List Candidate
  candidates_of_roots input [] = []
  candidates_of_roots input (root ∷ roots) =
      (if is_watched input root then root_candidates input root else [])
      ++ candidates_of_roots input roots

  source_candidates : RootId → List FilePath → List Candidate
  source_candidates id [] = []
  source_candidates id (source ∷ sources) =
      elim (parent source) [
        | none ↦ []
        | some up ↦ with_watch_path id (normalize_path fs up) false ∷ []
      ]
      ++ source_candidates id sources

  -- The second loop.
  candidates_of_sources : PlanInput → List (RootId × List FilePath) → List Candidate
  candidates_of_sources input [] = []
  candidates_of_sources input ((id, sources) ∷ rest) =
      (if any (λ root. text_eq root.root_id id && is_watched input root) input.roots
        then source_candidates id sources
        else [])
      ++ candidates_of_sources input rest

  pub candidates : PlanInput → List Candidate
  candidates input =
      candidates_of_roots input input.roots
      ++ candidates_of_sources input input.resolved_sources_by_root

  unfoldable pub build_watch_plan_with_resolved_targets : PlanInput → WatchPlan
  build_watch_plan_with_resolved_targets input =
      if is_off input.global_policy
      then empty
      else add_candidates input.strategy empty (sort_candidates (candidates input))

  pub build_watch_plan :
      List RootRegistration → WatchPolicy → MonitorRootStrategy → Option RootId → WatchPlan
  build_watch_plan roots global_policy strategy visible_root_id =
      build_watch_plan_with_resolved_targets (record {
        roots = roots;
        global_policy = global_policy;
        strategy = strategy;
        visible_root_id = visible_root_id;
        resolved_targets_by_root = [];
        resolved_sources_by_root = [];
        paused_root_ids = [];
      })
