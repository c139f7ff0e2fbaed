-- ===== src/Watch/Plan/Ids.antt =====
-- The ids of a plan are those of its candidates.
use scriptmetakit.Chars.{text_eq}
use scriptmetakit.Paths.{path_eq}
use scriptmetakit.Prelude.{
  ℕ, zero, suc, List, [], ◌∷◌, All, All-concat, All-join, any, Bool-cases, Option-cases, inl, inr,
}
use scriptmetakit.Watch.Files.{path_is_same_or_child}
use scriptmetakit.Watch.Plan.{
  Candidate, position, physical_index_for_exact_path, physical_index_for_deduplicated_path,
  physical_index_by, cover_root, cover_at, logical_roots_of, add_candidate, add_candidates,
}
use scriptmetakit.Watch.Types.{
  RootId, MonitorRootStrategy, exact_roots, deduplicate_nested_roots, platform_recommended,
  PhysicalWatchRoot, LogicalWatchRoot, WatchPlan,
}
use scriptmetakit.Paths.{FilePath}

module _ (P : RootId → Type 0) where
  abbrev pub PhysicalIds : List PhysicalWatchRoot → Type 0
  PhysicalIds = All (λ r. All P r.covers_root_ids)

  abbrev pub LogicalIds : List LogicalWatchRoot → Type 0
  LogicalIds = All (λ l. P l.root_id)

  exact-Ids :
      (rs : List PhysicalWatchRoot) (path : FilePath)
      → PhysicalIds rs
      → PhysicalIds (physical_index_for_exact_path rs path).0
  unfolding physical_index_for_exact_path
  exact-Ids rs path h =
      elim (Option-cases (position (λ (root : PhysicalWatchRoot). path_eq root.path path) rs)) [
        | inl e ↦ rw (e, physical_index_for_exact_path) (All-concat _ rs _ h tt)
        | inr (i, e) ↦ rw (e, physical_index_for_exact_path) h
      ]

  deduplicated-Ids :
      (rs : List PhysicalWatchRoot) (path : FilePath)
      → PhysicalIds rs
      → PhysicalIds (physical_index_for_deduplicated_path rs path).0
  unfolding physical_index_for_deduplicated_path
  deduplicated-Ids rs path h =
      elim (Option-cases
        (position (λ (root : PhysicalWatchRoot). path_is_same_or_child path root.path) rs)) [
          | inl e ↦ rw (e, physical_index_for_deduplicated_path) (exact-Ids rs path h)
          | inr (i, e) ↦ rw (e, physical_index_for_deduplicated_path) h
        ]

  by-Ids :
      (strategy : MonitorRootStrategy) (rs : List PhysicalWatchRoot) (path : FilePath)
      → PhysicalIds rs
      → PhysicalIds (physical_index_by strategy rs path).0
  unfolding physical_index_by
  by-Ids exact_roots rs path h = exact-Ids rs path h
  by-Ids deduplicate_nested_roots rs path h = deduplicated-Ids rs path h
  by-Ids platform_recommended rs path h = deduplicated-Ids rs path h

  cover_root-Ids :
      (id : RootId) (r : PhysicalWatchRoot)
      → P id
      → All P r.covers_root_ids
      → All P (cover_root id r).covers_root_ids
  unfolding cover_root
  cover_root-Ids id r p h = elim (Bool-cases (any (text_eq id) r.covers_root_ids)) [
    | inl e ↦ rw (e, cover_root) h
    | inr e ↦ rw (e, cover_root) (All-concat P r.covers_root_ids id h p)
  ]

  cover_at-Ids :
      (index : ℕ) (id : RootId) (rs : List PhysicalWatchRoot)
      → P id
      → PhysicalIds rs
      → PhysicalIds (cover_at index id rs)
  unfolding cover_at
  cover_at-Ids zero id [] p h = tt
  cover_at-Ids (suc index) id [] p h = tt
  cover_at-Ids zero id (r ∷ rs) p h = (cover_root-Ids id r p h.0, h.1)
  cover_at-Ids (suc index) id (r ∷ rs) p h = (h.0, cover_at-Ids index id rs p h.1)

  logical_roots_of-Ids :
      (c : Candidate) (index : ℕ) → P c.root_id → LogicalIds (logical_roots_of c index)
  unfolding logical_roots_of
  logical_roots_of-Ids c index p = elim (Bool-cases c.is_logical_root) [
    | inl e ↦ rw e (p, tt)
    | inr e ↦ rw e tt
  ]

  -- A property of the candidates' ids is one of the plan's.
  pub add_candidates-Ids :
      (strategy : MonitorRootStrategy) (plan : WatchPlan) (cs : List Candidate)
      → All (λ c. P c.root_id) cs
      → PhysicalIds plan.physical_roots
      → LogicalIds plan.logical_roots
      → PhysicalIds (add_candidates strategy plan cs).physical_roots
        × LogicalIds (add_candidates strategy plan cs).logical_roots
  unfolding add_candidates add_candidate
  add_candidates-Ids strategy plan [] ps h k = (h, k)
  add_candidates-Ids strategy plan (c ∷ cs) ps h k =
      let r = physical_index_by strategy plan.physical_roots c.watch_path in
      add_candidates-Ids strategy (add_candidate strategy plan c) cs ps.1
        (cover_at-Ids r.1 c.root_id r.0 ps.0 (by-Ids strategy plan.physical_roots c.watch_path h))
        (All-join _ plan.logical_roots _ k (logical_roots_of-Ids c r.1 ps.0))
