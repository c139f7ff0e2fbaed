-- ===== src/Watch/Plan/Build/Unwatched.antt =====
-- Nothing is watched on behalf of a root that is paused or excluded by a policy.
use scriptmetakit.Chars.{text_eq, text_eq_sound, text_eq_refl}
use scriptmetakit.Paths.{FilePath, parent}
use scriptmetakit.Prelude.{
  ◌≡◌, refl, ap, subst, arith, Bool, true, false, ◌&&◌, ◌⊎◌, Option, none, some, List, [], ◌∷◌, All,
  All-join, any, any-Elem, Elem, Bool-cases, Option-cases, inl, inr, and_true,
}
use scriptmetakit.Watch.Files.{FileSystem}
use scriptmetakit.Watch.Plan.Build.{
  PlanInput, is_watched, target_candidates, root_candidates, candidates_of_roots, source_candidates,
  candidates_of_sources, candidates, build_watch_plan_with_resolved_targets,
}
use scriptmetakit.Watch.Plan.Ids.{PhysicalIds, LogicalIds, add_candidates-Ids}
use scriptmetakit.Watch.Plan.Order.{sort_candidates-All}
use scriptmetakit.Watch.Plan.{
  Candidate, is_off, is_visible, watch_by, should_watch_root, empty, sort_candidates,
}
use scriptmetakit.Watch.Types.{
  RootId, RootRegistration, WatchPolicy, disabled, visible_only, all_registered, manual,
}

-- The policies allow to watch the root: both watch every registered root, or the root is the visible
-- one and both watch that at least.
abbrev pub IsOn : WatchPolicy → Type 0
IsOn policy = (policy ≡ visible_only) ⊎ (policy ≡ all_registered)

abbrev pub IsAllowed : WatchPolicy → Option RootId → RootRegistration → Type 0
IsAllowed global_policy visible_root_id root =
    ((global_policy ≡ all_registered) × (root.watch_policy ≡ all_registered))
    ⊎ ((visible_root_id ≡ some root.root_id) × IsOn global_policy × IsOn root.watch_policy)

is_visible-some :
    (visible : Option RootId) (id : RootId) → is_visible visible id ≡ true → visible ≡ some id
is_visible-some none id h = cc
is_visible-some (some v) id h = ap some (text_eq_sound v id h)

watch_by-IsAllowed :
    (global own : WatchPolicy) (visible : Bool)
    → is_off own ≡ false
    → watch_by global own visible ≡ true
    → ((global ≡ all_registered) × (own ≡ all_registered))
      ⊎ ((visible ≡ true) × IsOn global × IsOn own)
unfolding watch_by
watch_by-IsAllowed disabled own visible k h = cc
watch_by-IsAllowed manual own visible k h = cc
watch_by-IsAllowed visible_only disabled visible k h = cc
watch_by-IsAllowed visible_only manual visible k h = cc
watch_by-IsAllowed visible_only visible_only visible k h = inr (h, inl refl, inl refl)
watch_by-IsAllowed visible_only all_registered visible k h = inr (h, inl refl, inr refl)
watch_by-IsAllowed all_registered disabled visible k h = cc
watch_by-IsAllowed all_registered manual visible k h = cc
watch_by-IsAllowed all_registered visible_only visible k h = inr (h, inr refl, inl refl)
watch_by-IsAllowed all_registered all_registered visible k h = inl (refl, refl)

should_watch_root-IsAllowed :
    (root : RootRegistration) (global : WatchPolicy) (visible : Option RootId)
    → should_watch_root root global visible ≡ true
    → IsAllowed global visible root
unfolding should_watch_root
should_watch_root-IsAllowed root global visible h = elim (Bool-cases (is_off root.watch_policy)) [
  | inl e ↦ let q = (rw (e, should_watch_root) at h) in cc
  | inr e ↦
      elim (watch_by-IsAllowed global root.watch_policy (is_visible visible root.root_id) e
        (rw (e, should_watch_root) at h)) [
          | inl all ↦ inl all
          | inr (seen, g, o) ↦ inr (is_visible-some visible root.root_id seen, g, o)
        ]
]

any-no_Elem : (id : RootId) (ids : List RootId) → any (text_eq id) ids ≡ false → Elem id ids → ⊥
any-no_Elem id [] h m = m
any-no_Elem id (x ∷ ids) h (inl e) =
    let same : text_eq id x ≡ true = rw e (text_eq_refl id) in ground (arith, h, same)
any-no_Elem id (x ∷ ids) h (inr m) = any-no_Elem id ids (ground (arith, h)) m

-- The id belongs to a registered root that is neither paused nor excluded by a policy.
pub record IsWatchedId (input : PlanInput) (id : RootId) : Type 0 where
  pub root : RootRegistration
  pub registered : Elem root input.roots
  pub same_id : root.root_id ≡ id
  pub not_paused : ¬ Elem id input.paused_root_ids
  pub allowed : IsAllowed input.global_policy input.visible_root_id root

IsWatchedId-of :
    (input : PlanInput) (root : RootRegistration)
    → Elem root input.roots
    → is_watched input root ≡ true
    → IsWatchedId input root.root_id
unfolding is_watched
IsWatchedId-of input root m h = record {
  root = root;
  registered = m;
  same_id = refl;
  not_paused = any-no_Elem root.root_id input.paused_root_ids (ground (arith, h));
  allowed = should_watch_root-IsAllowed root _ _ (ground (arith, h));
}

abbrev Ids : PlanInput → List Candidate → Type 0
Ids input = All (λ c. IsWatchedId input c.root_id)

module _ (fs : FileSystem) (input : PlanInput) where
  target_candidates-Ids :
      (id : RootId) (targets : List FilePath)
      → IsWatchedId input id
      → Ids input (target_candidates fs id targets)
  unfolding target_candidates
  target_candidates-Ids id [] h = tt
  target_candidates-Ids id (t ∷ targets) h = (h, target_candidates-Ids id targets h)

  source_candidates-Ids :
      (id : RootId) (sources : List FilePath)
      → IsWatchedId input id
      → Ids input (source_candidates fs id sources)
  unfolding source_candidates
  source_candidates-Ids id [] h = tt
  source_candidates-Ids id (s ∷ sources) h = elim (Option-cases (parent s)) [
    | inl e ↦ rw e (source_candidates-Ids id sources h)
    | inr (up, e) ↦ rw e (h, source_candidates-Ids id sources h)
  ]

  candidates_of_roots-Ids :
      (roots : List RootRegistration)
      → ((root : RootRegistration) → Elem root roots → Elem root input.roots)
      → Ids input (candidates_of_roots fs input roots)
  unfolding candidates_of_roots root_candidates
  candidates_of_roots-Ids [] f = tt
  candidates_of_roots-Ids (r ∷ roots) f = elim (Bool-cases (is_watched input r)) [
    | inl e ↦
        let w = IsWatchedId-of input r (f r (inl refl)) e in
        rw e (
          All-join _ (root_candidates fs input r) _ (w, target_candidates-Ids r.root_id _ w)
            (candidates_of_roots-Ids roots (λ x m. f x (inr m))))
    | inr e ↦ rw e (candidates_of_roots-Ids roots (λ x m. f x (inr m)))
  ]

  watched_by :
      (id : RootId)
      → any
          (λ (root : RootRegistration). text_eq root.root_id id && is_watched input root)
          input.roots
        ≡ true
      → IsWatchedId input id
  watched_by id h =
      let r = any-Elem _ input.roots h in
      let t = and_true (text_eq (r.0).root_id id) (is_watched input r.0) r.2 in
      subst (IsWatchedId input) (text_eq_sound (r.0).root_id id t.0)
        (IsWatchedId-of input r.0 r.1 t.1)

  candidates_of_sources-Ids :
      (sources : List (RootId × List FilePath)) → Ids input (candidates_of_sources fs input sources)
  unfolding candidates_of_sources
  candidates_of_sources-Ids [] = tt
  candidates_of_sources-Ids ((id, paths) ∷ rest) =
      elim (Bool-cases (
        any (λ (root : RootRegistration). text_eq root.root_id id && is_watched input root)
          input.roots)) [
            | inl e ↦ rw e (
                All-join _ (source_candidates fs id paths) _
                  (source_candidates-Ids id paths (watched_by id e))
                  (candidates_of_sources-Ids rest))
            | inr e ↦ rw e (candidates_of_sources-Ids rest)
          ]

  -- Every root id in a plan, of a physical or a logical root, is that of a registered root, is not
  -- among the paused ids, and the policies allow to watch the root: both watch all registered roots,
  -- or it is the visible root and both watch that one at least.
  pub plan_ids_watched :
      PhysicalIds
        (IsWatchedId input)
        (build_watch_plan_with_resolved_targets fs input).physical_roots
      × LogicalIds
          (IsWatchedId input)
          (build_watch_plan_with_resolved_targets fs input).logical_roots
  unfolding build_watch_plan_with_resolved_targets candidates empty
  plan_ids_watched = elim (Bool-cases (is_off input.global_policy)) [
    | inl e ↦ rw (e, build_watch_plan_with_resolved_targets) (tt, tt)
    | inr e ↦
        let cs = candidates fs input in
        rw (e, build_watch_plan_with_resolved_targets)
          (add_candidates-Ids (IsWatchedId input) input.strategy empty (sort_candidates cs)
            (sort_candidates-All _ cs (
              All-join _ (candidates_of_roots fs input input.roots) _
                (candidates_of_roots-Ids input.roots (λ x m. m))
                (candidates_of_sources-Ids input.resolved_sources_by_root)))
            tt tt)
  ]
