-- ===== src/Watch/Plan/Nesting.antt =====
-- The watched directories do not lie in one another.
use native.Mathlib.Nat.{le_trans, le_refl}
use scriptmetakit.Paths.Prefixes.{path_eq-starts_with, starts_with_antisymm}
use scriptmetakit.Paths.{FilePath, path_eq, starts_with}
use scriptmetakit.Prelude.{
  ℕ, zero, suc, ◌≤◌, ◌≡◌, ◌≢◌, refl, sym, ap, ◌∙◌, Bool, false, List, [], ◌∷◌, ◌++◌, map,
  map-append, Option, none, some, arith, All, All-imp, All-concat, Option-cases, inl, inr, length,
  Bool-cases,
}
use scriptmetakit.Watch.Files.{FileSystem, path_is_same_or_child}
use scriptmetakit.Watch.Plan.Build.{PlanInput, candidates, build_watch_plan_with_resolved_targets}
use scriptmetakit.Watch.Plan.Order.{InOrder, sort_candidates-InOrder}
use scriptmetakit.Watch.Plan.{
  Candidate, position, physical_index_for_exact_path, physical_index_for_deduplicated_path,
  physical_index_by, cover_root, cover_at, add_candidate, add_candidates, sort_candidates, is_off,
  empty,
}
use scriptmetakit.Watch.Types.{
  RootId, MonitorRootStrategy, exact_roots, deduplicate_nested_roots, platform_recommended,
  PhysicalWatchRoot, WatchPlan,
}

pub same_or_child-starts_with : (p q : FilePath) → path_is_same_or_child p q ≡ starts_with p q
unfolding path_is_same_or_child
same_or_child-starts_with p q = ground (arith, path_eq-starts_with p q)

-- Neither path lies in the other.
abbrev pub Apart : FilePath → FilePath → Type 0
Apart p q = (starts_with p q ≡ false) × (starts_with q p ≡ false)

abbrev pub NotNested : List FilePath → Type 0
NotNested [] = Unit
NotNested (p ∷ ps) = All (Apart p) ps × NotNested ps

abbrev pub paths_of : List PhysicalWatchRoot → List FilePath
paths_of = map (λ root. root.path)

pub position-none {ℓ} :
    {A : Type ℓ} (p : A → Bool) (xs : List A) → position p xs ≡ none → All (λ x. p x ≡ false) xs
unfolding position
position-none p [] h = tt
position-none p (x ∷ xs) h = elim (Bool-cases (p x)) [
  | inl e ↦ absurd (some_none (rw e at h))
  | inr e ↦ (e, position-none p xs (ground arith))
]
  where
    some_none : {i : ℕ} → ◌≡◌ {A = Option ℕ} (some i) none → ⊥
    some_none h = cc

NotNested-concat :
    (ps : List FilePath) (p : FilePath)
    → NotNested ps
    → All (λ q. Apart q p) ps
    → NotNested (ps ++ p ∷ [])
NotNested-concat [] p h k = (tt, tt)
NotNested-concat (q ∷ ps) p h k = (All-concat (Apart q) ps p h.0 k.0, NotNested-concat ps p h.1 k.1)

-- A directory no shorter than those there, and in none of them, is apart from them all.
Apart-new : (path q : FilePath) → starts_with path q ≡ false → length q ≤ length path → Apart q path
Apart-new path q h le = ground (arith, starts_with_antisymm path q)

abbrev AllWithin : ℕ → List FilePath → Type 0
AllWithin n = All (λ q. length q ≤ n)

paths_of-cover_at :
    (index : ℕ) (id : RootId) (roots : List PhysicalWatchRoot)
    → paths_of (cover_at index id roots) ≡ paths_of roots
unfolding cover_at cover_root
paths_of-cover_at zero id [] = refl
paths_of-cover_at (suc index) id [] = refl
paths_of-cover_at zero id (root ∷ roots) = ground arith
paths_of-cover_at (suc index) id (root ∷ roots) =
    ap (λ l. root.path ∷ l) (paths_of-cover_at index id roots)

record Flat (n : ℕ) (ps : List FilePath) : Type 0 where
  apart : NotNested ps
  within : AllWithin n ps

Flat-later : (n m : ℕ) (ps : List FilePath) → n ≤ m → Flat n ps → Flat m ps
Flat-later n m ps le h = record {
  apart = h.apart;
  within = All-imp ps (λ q k. le_trans k le) h.within;
}

Apart-All :
    (path : FilePath) (roots : List PhysicalWatchRoot)
    → All (λ r. path_is_same_or_child path r.path ≡ false) roots
    → AllWithin (length path) (paths_of roots)
    → All (λ q. Apart q path) (paths_of roots)
Apart-All path [] h k = tt
Apart-All path (r ∷ roots) h k = (
  Apart-new path r.path (sym (same_or_child-starts_with path r.path) ∙ h.0) k.0,
  Apart-All path roots h.1 k.1,
)

-- The roots with one more, whose path is given.
pub pushed : List PhysicalWatchRoot → FilePath → List PhysicalWatchRoot
pushed roots path = roots ++ record { path = path; covers_root_ids = [] } ∷ []

Flat-pushed :
    (path : FilePath) (roots : List PhysicalWatchRoot)
    → All (λ r. path_is_same_or_child path r.path ≡ false) roots
    → Flat (length path) (paths_of roots)
    → Flat (length path) (paths_of (pushed roots path))
unfolding pushed
Flat-pushed path roots h k =
    rw
      (map-append (λ (r : PhysicalWatchRoot). r.path) roots
        (record { path = path; covers_root_ids = [] } ∷ []))
      (record {
        apart = NotNested-concat (paths_of roots) path k.apart (Apart-All path roots h k.within);
        within = All-concat _ (paths_of roots) path k.within (le_refl (length path));
      })

Flat-exact :
    (path : FilePath) (roots : List PhysicalWatchRoot)
    → All (λ r. path_is_same_or_child path r.path ≡ false) roots
    → Flat (length path) (paths_of roots)
    → Flat (length path) (paths_of (physical_index_for_exact_path roots path).0)
unfolding physical_index_for_exact_path
Flat-exact path roots h k =
    elim (Option-cases (position (λ (root : PhysicalWatchRoot). path_eq root.path path) roots)) [
      | inl e ↦ rw (e, physical_index_for_exact_path) (unfold pushed in Flat-pushed path roots h k)
      | inr (i, e) ↦ rw (e, physical_index_for_exact_path) k
    ]

Flat-deduplicated :
    (path : FilePath) (roots : List PhysicalWatchRoot)
    → Flat (length path) (paths_of roots)
    → Flat (length path) (paths_of (physical_index_for_deduplicated_path roots path).0)
unfolding physical_index_for_deduplicated_path
Flat-deduplicated path roots k =
    let test = λ (root : PhysicalWatchRoot). path_is_same_or_child path root.path in
    elim (Option-cases (position test roots)) [
      | inl e ↦
          rw (e, physical_index_for_deduplicated_path)
            (Flat-exact path roots (position-none test roots e) k)
      | inr (i, e) ↦ rw (e, physical_index_for_deduplicated_path) k
    ]

Flat-by :
    (strategy : MonitorRootStrategy) (path : FilePath) (roots : List PhysicalWatchRoot)
    → strategy ≢ exact_roots
    → Flat (length path) (paths_of roots)
    → Flat (length path) (paths_of (physical_index_by strategy roots path).0)
unfolding physical_index_by
Flat-by exact_roots path roots ne k = absurd (ne refl)
Flat-by deduplicate_nested_roots path roots ne k = Flat-deduplicated path roots k
Flat-by platform_recommended path roots ne k = Flat-deduplicated path roots k

-- Covering a root changes no path.
Flat-covered :
    (n index : ℕ) (id : RootId) (roots : List PhysicalWatchRoot)
    → Flat n (paths_of roots)
    → Flat n (paths_of (cover_at index id roots))
Flat-covered n index id roots h = rw (paths_of-cover_at index id roots) h

Flat-add_candidates :
    (strategy : MonitorRootStrategy) (n : ℕ) (plan : WatchPlan) (cs : List Candidate)
    → strategy ≢ exact_roots
    → All (λ c. n ≤ length c.watch_path) cs
    → InOrder cs
    → Flat n (paths_of plan.physical_roots)
    → NotNested (paths_of (add_candidates strategy plan cs).physical_roots)
unfolding add_candidates add_candidate
Flat-add_candidates strategy n plan [] ne le order h = h.apart
Flat-add_candidates strategy n plan (c ∷ cs) ne le order h =
    let r = physical_index_by strategy plan.physical_roots c.watch_path in
    Flat-add_candidates strategy (length c.watch_path) (add_candidate strategy plan c) cs ne order.0
      order.1
      (Flat-covered (length c.watch_path) r.1 c.root_id r.0 (
        Flat-by strategy c.watch_path plan.physical_roots ne
          (Flat-later n (length c.watch_path) (paths_of plan.physical_roots) le.0 h)))

All-from_zero : (cs : List Candidate) → All (λ c. 0 ≤ length c.watch_path) cs
All-from_zero [] = tt
All-from_zero (c ∷ cs) = (omega arith, All-from_zero cs)

-- Unless the roots are watched exactly as registered, no watched directory of a plan lies in
-- another one, nor is there one twice.
pub physical_roots-NotNested :
    (fs : FileSystem) (input : PlanInput)
    → input.strategy ≢ exact_roots
    → NotNested (paths_of (build_watch_plan_with_resolved_targets fs input).physical_roots)
unfolding build_watch_plan_with_resolved_targets empty
physical_roots-NotNested fs input ne = elim (Bool-cases (is_off input.global_policy)) [
  | inl e ↦ rw (e, build_watch_plan_with_resolved_targets) tt
  | inr e ↦
      let cs = candidates fs input in
      rw (e, build_watch_plan_with_resolved_targets)
        (Flat-add_candidates input.strategy 0 empty (sort_candidates cs) ne
          (All-from_zero (sort_candidates cs)) (sort_candidates-InOrder cs)
          (record { apart = tt; within = tt }))
]
