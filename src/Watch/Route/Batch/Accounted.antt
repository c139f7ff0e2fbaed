-- ===== src/Watch/Route/Batch/Accounted.antt =====
-- `route_change_batch` of src/watcher/plan.rs loses no path.
use scriptmetakit.Paths.Equal.{compare_path-eq}
use scriptmetakit.Paths.{FilePath, compare_path, path_eq_sound}
use scriptmetakit.Prelude.{
  Bool, false, List, [], ◌∷◌, ◌++◌, map, Ordering, ◌≡◌, refl, sym, ap, ◌∙◌, subst, Elem,
  Elem-append, Elem-append_left, Elem-append_right, any-Elem, Bool-cases, inl, inr, ◌⊎◌,
}
use scriptmetakit.Watch.Files.{FileSystem, normalize_reference_source}
use scriptmetakit.Watch.Route.Batch.{
  insert_path, path_set, add_root, route_roots, outside, route_change_batch, root_path_of,
}
use scriptmetakit.Watch.Route.Inner.{
  Routed, unmatched, accepted, refused, RootPaths, add_routed, route_paths,
}
use scriptmetakit.Watch.Route.{ChangeRoutingOptions, has_path}
use scriptmetakit.Watch.Types.{RootId, RootRegistration, RawChangeBatch, IgnoredWatchPath}

Ordering-cases : (o : Ordering) → (o ≡ Ordering.gt) ⊎ ((o ≡ Ordering.lt) ⊎ (o ≡ Ordering.eq))
Ordering-cases Ordering.gt = inl refl
Ordering-cases Ordering.lt = inr (inl refl)
Ordering-cases Ordering.eq = inr (inr refl)

Elem-map :
    (f : FilePath → FilePath) (x : FilePath) (xs : List FilePath)
    → Elem x xs
    → Elem (f x) (map f xs)
Elem-map f x [] m = absurd m
Elem-map f x (y ∷ ys) (inl e) = inl (ap f e)
Elem-map f x (y ∷ ys) (inr m) = inr (Elem-map f x ys m)

-- Some path that is ignored is this one.
abbrev pub IsIgnored : FilePath → List IgnoredWatchPath → Type 0
IsIgnored path ignored = (i : IgnoredWatchPath) × Elem i ignored × (i.path ≡ path)

IsIgnored-left :
    (path : FilePath) (xs ys : List IgnoredWatchPath)
    → IsIgnored path xs
    → IsIgnored path (xs ++ ys)
IsIgnored-left path xs ys (i, m, e) = (i, Elem-append_left i xs ys m, e)

IsIgnored-right :
    (path : FilePath) (xs ys : List IgnoredWatchPath)
    → IsIgnored path ys
    → IsIgnored path (xs ++ ys)
IsIgnored-right path xs ys (i, m, e) = (i, Elem-append_right i xs ys m, e)

insert_path-new : (path : FilePath) (xs : List FilePath) → Elem path (insert_path path xs)
unfolding insert_path
insert_path-new path [] = inl refl
insert_path-new path (x ∷ xs) = elim (Ordering-cases (compare_path path x)) [
  | inl e ↦ rw (e, insert_path) (inr (insert_path-new path xs))
  | inr (inl e) ↦ rw (e, insert_path) (inl refl)
  | inr (inr e) ↦ rw (e, insert_path) (inl (sym (compare_path-eq path x e)))
]

insert_path-old :
    (path p : FilePath) (xs : List FilePath) → Elem p xs → Elem p (insert_path path xs)
unfolding insert_path
insert_path-old path p [] m = absurd m
insert_path-old path p (x ∷ xs) m = elim (Ordering-cases (compare_path path x)) [
  | inr (inl e) ↦ rw (e, insert_path) (inr m)
  | inr (inr e) ↦ rw (e, insert_path) m
  | inl e ↦
      rw (e, insert_path) (elim m [ inl k ↦ inl k | inr k ↦ inr (insert_path-old path p xs k) ])
]

path_set-Elem : (p : FilePath) (xs : List FilePath) → Elem p xs → Elem p (path_set xs)
unfolding path_set
path_set-Elem p [] m = absurd m
path_set-Elem p (x ∷ xs) (inl e) =
    subst (λ q. Elem q (insert_path x (path_set xs))) e (insert_path-new x (path_set xs))
path_set-Elem p (x ∷ xs) (inr m) = insert_path-old x p (path_set xs) (path_set-Elem p xs m)

module _ (fs : FileSystem) (is_resolved_link : FilePath → Bool)
    (options : ChangeRoutingOptions) where
  -- A path that is matched is filtered or ignored.
  abbrev IsKept : FilePath → List FilePath → List IgnoredWatchPath → Type 0
  IsKept p observed ignored = Elem p observed ⊎ IsIgnored p ignored

  add_routed-IsKept :
      (id : RootId) (path p : FilePath) (routed : Routed) (later : RootPaths)
      → (Elem p later.matched → IsKept p later.filtered_paths later.ignored)
      → Elem p (add_routed id path routed later).matched
      → IsKept p
          (add_routed id path routed later).filtered_paths
          (add_routed id path routed later).ignored
  unfolding add_routed
  add_routed-IsKept id path p unmatched later h m = h m
  add_routed-IsKept id path p (accepted target source event) later h (inl e) = inl (inl e)
  add_routed-IsKept id path p (accepted target source event) later h (inr m) = elim (h m) [
    | inl k ↦ inl (inr k)
    | inr k ↦ inr k
  ]
  add_routed-IsKept id path p (refused reason) later h (inl e) = inr (_, inl refl, e)
  add_routed-IsKept id path p (refused reason) later h (inr m) = elim (h m) [
    | inl k ↦ inl k
    | inr (i, k, e) ↦ inr (i, inr k, e)
  ]

  route_paths-IsKept :
      (overflowed : Bool) (id : RootId) (root_path p : FilePath) (paths : List FilePath)
      → Elem p (route_paths fs is_resolved_link options overflowed id root_path paths).matched
      → IsKept p
          (route_paths fs is_resolved_link options overflowed id root_path paths).filtered_paths
          (route_paths fs is_resolved_link options overflowed id root_path paths).ignored
  unfolding route_paths
  route_paths-IsKept overflowed id root_path p [] m = absurd m
  route_paths-IsKept overflowed id root_path p (path ∷ paths) m =
      add_routed-IsKept id path p _ _ (route_paths-IsKept overflowed id root_path p paths) m

  route_roots-IsKept :
      (overflowed : Bool) (paths : List FilePath) (roots : List RootRegistration) (p : FilePath)
      → Elem p (route_roots fs is_resolved_link options overflowed paths roots).matched_paths
      → IsKept p
          (route_roots fs is_resolved_link options overflowed paths roots).observed
          (route_roots fs is_resolved_link options overflowed paths roots).ignored_paths
  unfolding route_roots add_root
  route_roots-IsKept overflowed paths [] p m = absurd m
  route_roots-IsKept overflowed paths (root ∷ roots) p m = elim (Elem-append p _ _ m) [
    | inl k ↦
        elim (route_paths-IsKept overflowed root.root_id
          (root_path_of fs is_resolved_link options root) p paths k) [
            | inl q ↦ inl (Elem-append_left p _ _ q)
            | inr q ↦ inr (IsIgnored-left p _ _ q)
          ]
    | inr k ↦ elim (route_roots-IsKept overflowed paths roots p k) [
      | inl q ↦ inl (Elem-append_right p _ _ q)
      | inr q ↦ inr (IsIgnored-right p _ _ q)
    ]
  ]

  outside-IsIgnored :
      (matched paths : List FilePath) (p : FilePath)
      → Elem p paths
      → has_path matched p ≡ false
      → IsIgnored p (outside fs is_resolved_link options matched paths)
  unfolding outside
  outside-IsIgnored matched [] p m h = absurd m
  outside-IsIgnored matched (q ∷ qs) p (inl e) h =
      let k : has_path matched q ≡ false = ap (has_path matched) e ∙ h in
      rw (k, outside) (_, inl refl, e)
  outside-IsIgnored matched (q ∷ qs) p (inr m) h =
      IsIgnored-right p _ _ (outside-IsIgnored matched qs p m h)

  -- No change is lost: every path of a batch, normalised, is among the paths that the result
  -- observes, or among those that it ignores with a reason.
  pub route_change_batch-IsKept :
      (roots : List RootRegistration) (raw : RawChangeBatch) (path : FilePath)
      → Elem path raw.paths
      → Elem
          (normalize_reference_source fs path)
          (route_change_batch fs is_resolved_link options roots raw).paths
        ⊎ IsIgnored
            (normalize_reference_source fs path)
            (route_change_batch fs is_resolved_link options roots raw).ignored_paths
  unfolding route_change_batch
  route_change_batch-IsKept roots raw path m =
      let p = normalize_reference_source fs path in
      let paths = map (normalize_reference_source fs) raw.paths in
      let all = route_roots fs is_resolved_link options raw.overflowed paths roots in
      elim (Bool-cases (has_path all.matched_paths p)) [
        | inr e ↦ inr (
            IsIgnored-right p _ _
              (outside-IsIgnored all.matched_paths paths p (Elem-map _ path raw.paths m) e))
        | inl e ↦
            let (q, k, same) = any-Elem _ all.matched_paths e in
            let found = subst (λ x. Elem x all.matched_paths) (path_eq_sound q p same) k in
            elim (route_roots-IsKept raw.overflowed paths roots p found) [
              | inl o ↦ inl (path_set-Elem p all.observed o)
              | inr i ↦ inr (IsIgnored-left p _ _ i)
            ]
      ]
