-- ===== src/Watch/Plan/Build/Watched.antt =====
-- Every root that is to be watched is watched, at or above its path.
use scriptmetakit.Paths.Prefixes.{starts_with_trans}
use scriptmetakit.Paths.{FilePath}
use scriptmetakit.Prelude.{
  ℕ, ◌≡◌, refl, true, false, List, [], ◌∷◌, some, inl, inr, Elem, Elem-append_left,
  Elem-append_right,
}
use scriptmetakit.Watch.Files.Ancestors.{native_watch_directory-above}
use scriptmetakit.Watch.Files.{FileSystem, normalize_path, native_watch_directory}
use scriptmetakit.Watch.Plan.Build.{
  PlanInput, lookup_paths, is_watched, with_watch_path, target_candidates, root_candidates,
  candidates_of_roots, candidates, build_watch_plan_with_resolved_targets,
}
use scriptmetakit.Watch.Plan.Cover.{CoveredAt, Placed, add_candidates-Placed}
use scriptmetakit.Watch.Plan.Order.{sort_candidates-Elem}
use scriptmetakit.Watch.Plan.{Candidate, is_off, empty, sort_candidates}
use scriptmetakit.Watch.Types.{RootId, RootRegistration, PhysicalWatchRoot}

module _ (fs : FileSystem) where
  root_candidates-Elem :
      (input : PlanInput) (root : RootRegistration) (roots : List RootRegistration) (c : Candidate)
      → is_watched input root ≡ true
      → Elem root roots
      → Elem c (root_candidates fs input root)
      → Elem c (candidates_of_roots fs input roots)
  unfolding candidates_of_roots
  root_candidates-Elem input root [] c h m k = absurd m
  root_candidates-Elem input root (r ∷ roots) c h (inl e) k =
      rw (e, h) (Elem-append_left c _ (candidates_of_roots fs input roots) k)
  root_candidates-Elem input root (r ∷ roots) c h (inr m) k =
      Elem-append_right c _ (candidates_of_roots fs input roots)
        (root_candidates-Elem input root roots c h m k)

  target_candidates-Elem :
      (id : RootId) (targets : List FilePath) (target : FilePath)
      → Elem target targets
      → Elem
          (with_watch_path fs id (normalize_path fs target) false)
          (target_candidates fs id targets)
  unfolding target_candidates
  target_candidates-Elem id [] target m = absurd m
  target_candidates-Elem id (t ∷ targets) target (inl e) = inl (rw e refl)
  target_candidates-Elem id (t ∷ targets) target (inr m) =
      inr (target_candidates-Elem id targets target m)

  candidate-Placed :
      (input : PlanInput) (root : RootRegistration) (c : Candidate)
      → is_off input.global_policy ≡ false
      → is_watched input root ≡ true
      → Elem root input.roots
      → Elem c (root_candidates fs input root)
      → Placed (build_watch_plan_with_resolved_targets fs input) c
  unfolding build_watch_plan_with_resolved_targets candidates
  candidate-Placed input root c on h m k =
      let cs = candidates fs input in
      rw (on, build_watch_plan_with_resolved_targets)
        (add_candidates-Placed input.strategy empty (sort_candidates cs) c (
          (sort_candidates-Elem c cs).1
            (Elem-append_left c _ _ (root_candidates-Elem input root input.roots c h m k))))

  covered_path :
      (rs : List PhysicalWatchRoot) (id : RootId) (path : FilePath) (index : ℕ)
      → CoveredAt rs id (native_watch_directory fs path) index
      → CoveredAt rs id path index
  covered_path rs id path index h = record {
    root = h.root;
    stands = h.stands;
    above =
        starts_with_trans path (native_watch_directory fs path) h.root.path
          (native_watch_directory-above fs path) h.above;
    lists = h.lists;
  }

  -- Unless watching is off, each registered root that is to be watched is an active logical root
  -- of the plan, with its normalised path and the index of a physical root; that one lists the
  -- root's id, and its path is the root's path or a directory above it.
  pub watched_root_covered :
      (input : PlanInput) (root : RootRegistration)
      → is_off input.global_policy ≡ false
      → is_watched input root ≡ true
      → Elem root input.roots
      → let plan = build_watch_plan_with_resolved_targets fs input in
        (index : ℕ) × CoveredAt plan.physical_roots root.root_id (normalize_path fs root.path) index
        × Elem
            (record {
              root_id = root.root_id;
              path = normalize_path fs root.path;
              physical_index = some index;
              active = true;
            })
            plan.logical_roots
  unfolding root_candidates
  watched_root_covered input root on h m =
      let c = with_watch_path fs root.root_id (normalize_path fs root.path) true in
      let p = candidate-Placed input root c on h m (inl refl) in
      (
        p.index,
        covered_path _ root.root_id (normalize_path fs root.path) p.index p.covered,
        p.listed refl,
      )

  -- Unless watching is off, for each resolved target of a registered root that is to be watched the
  -- plan has a physical root that lists the root's id, and whose path is the target's normalised path
  -- or a directory above it.
  pub watched_target_covered :
      (input : PlanInput) (root : RootRegistration) (target : FilePath)
      → is_off input.global_policy ≡ false
      → is_watched input root ≡ true
      → Elem root input.roots
      → Elem target (lookup_paths root.root_id input.resolved_targets_by_root)
      → (index : ℕ) × CoveredAt
          (build_watch_plan_with_resolved_targets fs input).physical_roots
          root.root_id
          (normalize_path fs target)
          index
  unfolding root_candidates
  watched_target_covered input root target on h m t =
      let c = with_watch_path fs root.root_id (normalize_path fs target) false in
      let targets = lookup_paths root.root_id input.resolved_targets_by_root in
      let p =
        candidate-Placed input root c on h m
          (inr (target_candidates-Elem root.root_id targets target t)) in
      (p.index, covered_path _ root.root_id (normalize_path fs target) p.index p.covered)
