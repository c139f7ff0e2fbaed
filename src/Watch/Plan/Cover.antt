-- ===== src/Watch/Plan/Cover.antt =====
-- Every candidate is watched: the plan has a physical root above it that lists its root.
use mathlib.Core.Path.{subst}
use scriptmetakit.Chars.{text_eq}
use scriptmetakit.Paths.Prefixes.{starts_with_refl}
use scriptmetakit.Paths.{FilePath, path_eq, path_eq_sound, starts_with}
use scriptmetakit.Prelude.{
  ℕ, ◌≡◌, refl, sym, ◌∙◌, true, List, [], ◌∷◌, some, Option-cases, inl, inr, get_elem?, any, Elem,
  Elem-append_left, Elem-append_right,
}
use scriptmetakit.Watch.Files.{path_is_same_or_child}
use scriptmetakit.Watch.Plan.Nesting.{same_or_child-starts_with}
use scriptmetakit.Watch.Plan.Grow.{
  Extends, Extends-refl, Extends-trans, Extends-append, get_elem?-last, position-some,
  Grown-cover_root, Lists-cover_root, Extends-cover_at, cover_at-Lists,
}
use scriptmetakit.Watch.Plan.{
  Candidate, position, physical_index_for_exact_path, physical_index_for_deduplicated_path,
  physical_index_by, cover_root, cover_at, logical_roots_of, add_candidate, add_candidates,
}
use scriptmetakit.Watch.Types.{
  RootId, MonitorRootStrategy, exact_roots, deduplicate_nested_roots, platform_recommended,
  PhysicalWatchRoot, LogicalWatchRoot, WatchPlan,
}

-- A physical root at the index that is the path or lies above it.
record Above (rs : List PhysicalWatchRoot) (index : ℕ) (path : FilePath) : Type 0 where
  root : PhysicalWatchRoot
  stands : get_elem? rs index ≡ some root
  above : starts_with path root.path ≡ true

-- What a lookup of a physical root returns.
record Found (rs : List PhysicalWatchRoot) (path : FilePath) (r : List PhysicalWatchRoot × ℕ)
    : Type 0 where
  extends : Extends rs r.0
  found : Above r.0 r.1 path

exact-Found :
    (rs : List PhysicalWatchRoot) (path : FilePath)
    → Found rs path (physical_index_for_exact_path rs path)
unfolding physical_index_for_exact_path
exact-Found rs path =
    let test = λ (root : PhysicalWatchRoot). path_eq root.path path in
    elim (Option-cases (position test rs)) [
      | inl e ↦
          let x : PhysicalWatchRoot = record { path = path; covers_root_ids = [] } in
          rw (e, physical_index_for_exact_path)
            (record {
              extends = Extends-append rs x;
              found = record {
                root = x;
                stands = get_elem?-last rs x;
                above = starts_with_refl path;
              };
            })
      | inr (i, e) ↦
          let s = position-some test rs i e in
          rw (e, physical_index_for_exact_path)
            (record {
              extends = Extends-refl rs;
              found = record {
                root = s.0;
                stands = s.1;
                above = rw (path_eq_sound s.0.path path s.2) (starts_with_refl path);
              };
            })
    ]

deduplicated-Found :
    (rs : List PhysicalWatchRoot) (path : FilePath)
    → Found rs path (physical_index_for_deduplicated_path rs path)
unfolding physical_index_for_deduplicated_path
deduplicated-Found rs path =
    let test = λ (root : PhysicalWatchRoot). path_is_same_or_child path root.path in
    elim (Option-cases (position test rs)) [
      | inl e ↦ rw (e, physical_index_for_deduplicated_path) (exact-Found rs path)
      | inr (i, e) ↦
          let s = position-some test rs i e in
          rw (e, physical_index_for_deduplicated_path)
            (record {
              extends = Extends-refl rs;
              found = record {
                root = s.0;
                stands = s.1;
                above = sym (same_or_child-starts_with path s.0.path) ∙ s.2;
              };
            })
    ]

by-Found :
    (strategy : MonitorRootStrategy) (rs : List PhysicalWatchRoot) (path : FilePath)
    → Found rs path (physical_index_by strategy rs path)
unfolding physical_index_by
by-Found exact_roots rs path = exact-Found rs path
by-Found deduplicate_nested_roots rs path = deduplicated-Found rs path
by-Found platform_recommended rs path = deduplicated-Found rs path

-- A physical root at the index that lists the root id and does not lie below the path.
pub record CoveredAt (rs : List PhysicalWatchRoot) (id : RootId) (path : FilePath) (index : ℕ)
    : Type 0 where
  pub root : PhysicalWatchRoot
  pub stands : get_elem? rs index ≡ some root
  pub above : starts_with path root.path ≡ true
  pub lists : any (text_eq id) root.covers_root_ids ≡ true

abbrev logical_root : Candidate → ℕ → LogicalWatchRoot
logical_root c index = record {
  root_id = c.root_id;
  path = c.path;
  physical_index = some index;
  active = true;
}

-- The plan has a place for the candidate.
pub record Placed (plan : WatchPlan) (c : Candidate) : Type 0 where
  pub index : ℕ
  pub covered : CoveredAt plan.physical_roots c.root_id c.watch_path index
  pub listed : c.is_logical_root ≡ true → Elem (logical_root c index) plan.logical_roots

CoveredAt-later :
    (rs rs' : List PhysicalWatchRoot) (id : RootId) (path : FilePath) (index : ℕ)
    → Extends rs rs'
    → CoveredAt rs id path index
    → CoveredAt rs' id path index
CoveredAt-later rs rs' id path index f h =
    let r = f index h.root h.stands in
    record {
      root = r.0;
      stands = r.1;
      above = rw r.2.same_path h.above;
      lists = r.2.keeps id h.lists;
    }

add_candidate-Extends :
    (strategy : MonitorRootStrategy) (plan : WatchPlan) (c : Candidate)
    → Extends plan.physical_roots (add_candidate strategy plan c).physical_roots
unfolding add_candidate
add_candidate-Extends strategy plan c =
    let r = physical_index_by strategy plan.physical_roots c.watch_path in
    Extends-trans plan.physical_roots r.0 (cover_at r.1 c.root_id r.0)
      (by-Found strategy plan.physical_roots c.watch_path).extends
      (Extends-cover_at r.1 c.root_id r.0)

add_candidate-Placed :
    (strategy : MonitorRootStrategy) (plan : WatchPlan) (c : Candidate)
    → Placed (add_candidate strategy plan c) c
unfolding add_candidate logical_roots_of
add_candidate-Placed strategy plan c =
    let r = physical_index_by strategy plan.physical_roots c.watch_path in
    let f = (by-Found strategy plan.physical_roots c.watch_path).found in
    record {
      index = r.1;
      covered = record {
        root = cover_root c.root_id f.root;
        stands = cover_at-Lists r.1 c.root_id r.0 f.root f.stands;
        above = rw (Grown-cover_root c.root_id f.root).same_path f.above;
        lists = Lists-cover_root c.root_id f.root;
      };
      listed = λ h. rw h (Elem-append_right _ plan.logical_roots _ (inl refl));
    }

Placed-later :
    (strategy : MonitorRootStrategy) (plan : WatchPlan) (c d : Candidate)
    → Placed plan c
    → Placed (add_candidate strategy plan d) c
unfolding add_candidate
Placed-later strategy plan c d h = record {
  index = h.index;
  covered =
      CoveredAt-later plan.physical_roots _ c.root_id c.watch_path h.index
        (add_candidate-Extends strategy plan d) h.covered;
  listed = λ k. Elem-append_left _ plan.logical_roots _ (h.listed k);
}

Placed-rest :
    (strategy : MonitorRootStrategy) (plan : WatchPlan) (c : Candidate) (cs : List Candidate)
    → Placed plan c
    → Placed (add_candidates strategy plan cs) c
unfolding add_candidates
Placed-rest strategy plan c [] h = h
Placed-rest strategy plan c (d ∷ cs) h =
    Placed-rest strategy (add_candidate strategy plan d) c cs (Placed-later strategy plan c d h)

-- After the loop every candidate has its place.
pub add_candidates-Placed :
    (strategy : MonitorRootStrategy) (plan : WatchPlan) (cs : List Candidate) (c : Candidate)
    → Elem c cs
    → Placed (add_candidates strategy plan cs) c
unfolding add_candidates
add_candidates-Placed strategy plan [] c m = absurd m
add_candidates-Placed strategy plan (d ∷ cs) c (inl e) =
    subst (λ x. Placed (add_candidates strategy (add_candidate strategy plan d) cs) x) e
      (Placed-rest strategy (add_candidate strategy plan d) d cs
        (add_candidate-Placed strategy plan d))
add_candidates-Placed strategy plan (d ∷ cs) c (inr m) =
    add_candidates-Placed strategy (add_candidate strategy plan d) cs c m
