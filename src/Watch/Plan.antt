-- ===== src/Watch/Plan.antt =====
-- The parts of `build_watch_plan` of src/watcher/plan.rs: the policies, the physical roots, the
-- order of the candidates, and the last loop.
pub mod Build
pub mod Order
pub mod Nesting
pub mod Grow
pub mod Cover
pub mod Ids
use scriptmetakit.Chars.{Text, codes, text_eq}
use scriptmetakit.Paths.{FilePath, compare_text, compare_path, then_with, path_eq, parent}
use scriptmetakit.Prelude.{
  ℕ, zero, suc, ◌-◌, Bool, true, false, not, ◌&&◌, ◌||◌, List, [], ◌∷◌, ◌++◌, map, Option, none,
  some, if◌then◌else◌, compare, Ordering, length, any, filter,
}
use scriptmetakit.Watch.Files.{
  FileSystem, normalize_path, native_watch_directory, path_is_same_or_child,
}
use scriptmetakit.Watch.Types.{
  RootId, WatchPolicy, disabled, visible_only, all_registered, manual, MonitorRootStrategy,
  exact_roots, deduplicate_nested_roots, platform_recommended, RootRegistration, PhysicalWatchRoot,
  LogicalWatchRoot, WatchPlan,
}

abbrev script_default : List Text
script_default =
    codes "applescript"
    ∷ codes "idjs"
    ∷ codes "js"
    ∷ codes "jsx"
    ∷ codes "jsxbin"
    ∷ codes "jsxinc"
    ∷ codes "jxa"
    ∷ codes "psjs"
    ∷ codes "scpt"
    ∷ codes "scptd"
    ∷ []

-- `WatchPlan::empty`.
unfoldable pub empty : WatchPlan
empty = record {
  physical_roots = [];
  logical_roots = [];
  debounce_delay_millis = 500;
  max_delivery_delay_millis = 2000;
  native_event_latency_millis = 0;
  max_pending_paths = 1024;
  supported_extensions = script_default;
  skip_hidden_paths = true;
  skip_package_paths = true;
}

abbrev pub is_off : WatchPolicy → Bool
is_off disabled = true
is_off manual = true
is_off visible_only = false
is_off all_registered = false

abbrev is_visible : Option RootId → RootId → Bool
is_visible none id = false
is_visible (some visible) id = text_eq visible id

-- The `match` on the two policies, behind the early return.
unfoldable pub watch_by : WatchPolicy → WatchPolicy → Bool → Bool
watch_by disabled own visible = false
watch_by manual own visible = false
watch_by visible_only own visible = visible
watch_by all_registered visible_only visible = visible
watch_by all_registered all_registered visible = true
watch_by all_registered disabled visible = false
watch_by all_registered manual visible = false

pub should_watch_root : RootRegistration → WatchPolicy → Option RootId → Bool
unfolding watch_by
should_watch_root root global_policy visible_root_id =
    if is_off root.watch_policy
    then false
    else watch_by global_policy root.watch_policy (is_visible visible_root_id root.root_id)

-- `Iterator::position`.
pub position {ℓ} : {A : Type ℓ} → (A → Bool) → List A → Option ℕ
position p [] = none
position p (x ∷ xs) =
    let later = position p xs in
    if p x then some 0 else elim later [ none ↦ none | some i ↦ some (suc i) ]

-- The two helpers return the physical roots and the index in them.
pub physical_index_for_exact_path : List PhysicalWatchRoot → FilePath → List PhysicalWatchRoot × ℕ
physical_index_for_exact_path roots path = elim (position (λ root. path_eq root.path path) roots) [
  | some index ↦ (roots, index)
  | none ↦
      let pushed = roots ++ record { path = path; covers_root_ids = [] } ∷ [] in
      (pushed, length pushed - 1)
]

pub physical_index_for_deduplicated_path :
    List PhysicalWatchRoot → FilePath → List PhysicalWatchRoot × ℕ
physical_index_for_deduplicated_path roots path =
    elim (position (λ root. path_is_same_or_child path root.path) roots) [
      | some index ↦ (roots, index)
      | none ↦ physical_index_for_exact_path roots path
    ]

pub physical_index_by :
    MonitorRootStrategy → List PhysicalWatchRoot → FilePath → List PhysicalWatchRoot × ℕ
physical_index_by exact_roots = physical_index_for_exact_path
physical_index_by deduplicate_nested_roots = physical_index_for_deduplicated_path
physical_index_by platform_recommended = physical_index_for_deduplicated_path

-- The tuple `(root_id, path, is_logical_root, watch_path)`.
pub record Candidate : Type 0 where
  pub root_id : RootId
  pub path : FilePath
  pub is_logical_root : Bool
  pub watch_path : FilePath

-- `contains` and `push` on `covers_root_ids`, through `get_mut(physical_index)`.
pub cover_root : RootId → PhysicalWatchRoot → PhysicalWatchRoot
cover_root id root =
    if any (text_eq id) root.covers_root_ids
    then root
    else record root { covers_root_ids = root.covers_root_ids ++ id ∷ [] }

pub cover_at : ℕ → RootId → List PhysicalWatchRoot → List PhysicalWatchRoot
cover_at index id [] = []
cover_at zero id (root ∷ roots) = cover_root id root ∷ roots
cover_at (suc index) id (root ∷ roots) = root ∷ cover_at index id roots

pub logical_roots_of : Candidate → ℕ → List LogicalWatchRoot
logical_roots_of c index =
    if c.is_logical_root
    then record { root_id = c.root_id; path = c.path; physical_index = some index; active = true }
      ∷ []
    else []

-- One round of the last loop.
pub add_candidate : MonitorRootStrategy → WatchPlan → Candidate → WatchPlan
add_candidate strategy plan c =
    let (roots, index) = physical_index_by strategy plan.physical_roots c.watch_path in
    record plan {
      physical_roots = cover_at index c.root_id roots;
      logical_roots = plan.logical_roots ++ logical_roots_of c index;
    }

pub add_candidates : MonitorRootStrategy → WatchPlan → List Candidate → WatchPlan
add_candidates strategy plan [] = plan
add_candidates strategy plan (c ∷ cs) = add_candidates strategy (add_candidate strategy plan c) cs

compare_bool : Bool → Bool → Ordering
compare_bool false true = Ordering.lt
compare_bool true false = Ordering.gt
compare_bool true true = Ordering.eq
compare_bool false false = Ordering.eq

-- The comparison of `sort_by`.
pub compare_candidate : Candidate → Candidate → Ordering
compare_candidate lhs rhs = then_with (compare (length lhs.watch_path) (length rhs.watch_path)) (
    then_with (compare_path lhs.watch_path rhs.watch_path) (
      then_with (compare_text lhs.root_id rhs.root_id)
        (compare_bool rhs.is_logical_root lhs.is_logical_root)))

-- A stable sort: a candidate goes before the first one that is greater.
insert_candidate : Candidate → List Candidate → List Candidate
insert_candidate c [] = c ∷ []
insert_candidate c (x ∷ xs) =
    let later = insert_candidate c xs in
    elim (compare_candidate c x) [
      | Ordering.gt ↦ x ∷ later
      | Ordering.lt ↦ c ∷ x ∷ xs
      | Ordering.eq ↦ c ∷ x ∷ xs
    ]

pub sort_candidates : List Candidate → List Candidate
sort_candidates [] = []
sort_candidates (c ∷ cs) = insert_candidate c (sort_candidates cs)
