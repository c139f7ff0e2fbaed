-- ===== src/Watch/Native/Worker/Kept.antt =====
-- What the worker keeps of the changes that pass the filter.
use scriptmetakit.Paths.{FilePath, compare_path, path_eq, path_eq_sound}
use scriptmetakit.Prelude.{
  if_keeps, ℕ, Bool, true, false, ◌||◌, List, [], ◌∷◌, ◌++◌, Option, none, some, Ordering, Elem,
  Elem-append_left, Elem-append_right, ◌≡◌, refl, sym, ◌∙◌, Bool-cases, Option-cases, ◌⊎◌, inl, inr,
  arith,
}
use scriptmetakit.Watch.Native.Worker.{
  Settings, Worker, is_empty_list, nothing_to_send, should_flush_after_event, send_batch,
  flush_pending_batch, append_dropped, timed, flush_if, receive_event, Input, event, timeout,
  dropped, disconnected, try_recv, receiver_dropped, take_batch, step, run,
}
use scriptmetakit.Watch.Native.{
  NativeFsEvent, changed, overflow, NativeEventFilter, placed, insert_path, sort_paths, keep_path,
  dedup_paths, should_keep_event_path, Pending, pending_exceeded_max, mark_pending_overflowed,
  Appended, with_path, append_path, append_event_to_pending,
}
use scriptmetakit.Watch.Types.{RawChangeBatch}

Elem-placed :
    (order : Ordering) (path x y : FilePath) (ys later : List FilePath)
    → (x ≡ path) ⊎ Elem path (y ∷ ys)
    → ((x ≡ path) ⊎ Elem path ys → Elem path later)
    → Elem path (placed order x y ys later)
unfolding placed
Elem-placed Ordering.gt path x y ys later (inl e) k = inr (k (inl e))
Elem-placed Ordering.gt path x y ys later (inr (inl e)) k = inl e
Elem-placed Ordering.gt path x y ys later (inr (inr m)) k = inr (k (inr m))
Elem-placed Ordering.lt path x y ys later h k = h
Elem-placed Ordering.eq path x y ys later h k = h

Elem-insert_path :
    (path x : FilePath) (xs : List FilePath)
    → (x ≡ path) ⊎ Elem path xs
    → Elem path (insert_path x xs)
unfolding insert_path
Elem-insert_path path x [] h = h
Elem-insert_path path x (y ∷ ys) h =
    Elem-placed (compare_path x y) path x y ys (insert_path x ys) h (Elem-insert_path path x ys)

Elem-sort_paths : (path : FilePath) (xs : List FilePath) → Elem path xs → Elem path (sort_paths xs)
unfolding sort_paths
Elem-sort_paths path [] m = m
Elem-sort_paths path (x ∷ xs) (inl e) = Elem-insert_path path x (sort_paths xs) (inl e)
Elem-sort_paths path (x ∷ xs) (inr m) =
    Elem-insert_path path x (sort_paths xs) (inr (Elem-sort_paths path xs m))

Elem-keep_path :
    (path x : FilePath) (xs : List FilePath)
    → (x ≡ path) ⊎ Elem path xs
    → Elem path (keep_path x xs)
unfolding keep_path
Elem-keep_path path x [] h = h
Elem-keep_path path x (y ∷ ys) h = elim (Bool-cases (path_eq x y)) [
  | inr e ↦ rw (e, keep_path) h
  | inl e ↦
      rw (e, keep_path) (elim h [ inl same ↦ inl (sym (path_eq_sound x y e) ∙ same) | inr m ↦ m ])
]

Elem-dedup_paths :
    (path : FilePath) (xs : List FilePath) → Elem path xs → Elem path (dedup_paths xs)
unfolding dedup_paths
Elem-dedup_paths path [] m = m
Elem-dedup_paths path (x ∷ xs) (inl e) = Elem-keep_path path x (dedup_paths xs) (inl e)
Elem-dedup_paths path (x ∷ xs) (inr m) =
    Elem-keep_path path x (dedup_paths xs) (inr (Elem-dedup_paths path xs m))

-- The paths name it, or a full rescan is asked for.
abbrev pub IsDue : FilePath → Pending → Type 0
IsDue path p = Elem path p.paths ⊎ (p.overflowed ≡ true)

abbrev pub IsIn : FilePath → RawChangeBatch → Type 0
IsIn path batch = Elem path batch.paths ⊎ (batch.overflowed ≡ true)

abbrev pub IsWaiting : FilePath → Option RawChangeBatch → Type 0
IsWaiting path none = ⊥
IsWaiting path (some batch) = IsIn path batch

abbrev pub IsReceived : FilePath → List RawChangeBatch → Type 0
IsReceived path [] = ⊥
IsReceived path (batch ∷ batches) = IsIn path batch ⊎ IsReceived path batches

-- The receiver is gone, or a change of the path has been received, waits in the channel or is pending.
abbrev pub IsKept : FilePath → Worker → Type 0
IsKept path w =
    (w.receiver_alive ≡ false)
    ⊎ (IsReceived path w.received ⊎ (IsWaiting path w.batch ⊎ IsDue path w.pending))

with_path-IsDue :
    (path added : FilePath) (p : Pending)
    → (added ≡ path) ⊎ IsDue path p
    → IsDue path (with_path added p)
unfolding with_path
with_path-IsDue path added p (inl e) = inl (
    Elem-dedup_paths path _
      (Elem-sort_paths path _ (Elem-append_right path p.paths (added ∷ []) (inl e))))
with_path-IsDue path added p (inr (inl m)) = inl (
    Elem-dedup_paths path _ (Elem-sort_paths path _ (Elem-append_left path p.paths (added ∷ []) m)))
with_path-IsDue path added p (inr (inr h)) = inr h

append_path-IsDue :
    (path added : FilePath) (p : Pending) (filter : NativeEventFilter)
    → (added ≡ path) ⊎ IsDue path p
    → IsDue path (append_path added p filter).pending
unfolding append_path mark_pending_overflowed
append_path-IsDue path added p filter h =
    elim (Bool-cases (pending_exceeded_max (with_path added p).paths filter.max_pending_paths)) [
      | inl e ↦ rw (e, append_path) (inr refl)
      | inr e ↦ rw (e, append_path) (with_path-IsDue path added p h)
    ]

no-Elem : (path : FilePath) (xs : List FilePath) → is_empty_list xs ≡ true → Elem path xs → ⊥
unfolding is_empty_list
no-Elem path [] h m = m
no-Elem path (x ∷ xs) h m = let q = h in cc

pub nothing_to_send-IsDue :
    (path : FilePath) (p : Pending) → nothing_to_send p ≡ true → IsDue path p → ⊥
unfolding nothing_to_send
nothing_to_send-IsDue path p h (inl m) = no-Elem path p.paths (ground (arith, h)) m
nothing_to_send-IsDue path p h (inr o) = let q = (rw o at h) in ground (arith, h, o)

module _ (path_is_existing_directory : FilePath → Bool) where
  append_event_to_pending-IsDue :
      (path : FilePath) (e : NativeFsEvent) (p : Pending) (filter : NativeEventFilter)
      → IsDue path p
      → IsDue path (append_event_to_pending path_is_existing_directory e p filter).pending
  unfolding append_event_to_pending mark_pending_overflowed
  append_event_to_pending-IsDue path overflow p filter h = inr refl
  append_event_to_pending-IsDue path (changed added may_change folder removes) p filter h =
      elim (Bool-cases (
        should_keep_event_path path_is_existing_directory added may_change folder removes filter)) [
          | inl e ↦ rw (e, append_event_to_pending) (append_path-IsDue path added p filter (inr h))
          | inr e ↦ rw (e, append_event_to_pending) h
        ]

  kept_event-IsDue :
      (path : FilePath) (may_change folder removes : Bool) (p : Pending)
      (filter : NativeEventFilter)
      → should_keep_event_path path_is_existing_directory path may_change folder removes filter
        ≡ true
      → IsDue path
          (append_event_to_pending path_is_existing_directory
            (changed path may_change folder removes)
            p
            filter).pending
  unfolding append_event_to_pending
  kept_event-IsDue path may_change folder removes p filter e =
      rw (e, append_event_to_pending) (append_path-IsDue path path p filter (inl refl))

  kept_event_changes :
      (path : FilePath) (may_change folder removes : Bool) (p : Pending)
      (filter : NativeEventFilter)
      → should_keep_event_path path_is_existing_directory path may_change folder removes filter
        ≡ true
      → (append_event_to_pending path_is_existing_directory
          (changed path may_change folder removes)
          p
          filter).pending_changed
        ≡ true
  unfolding append_event_to_pending append_path
  kept_event_changes path may_change folder removes p filter e =
      rw (e, append_event_to_pending)
        (elim (Bool-cases
          (pending_exceeded_max (with_path path p).paths filter.max_pending_paths)) [
            | inl k ↦ rw k refl
            | inr k ↦ rw k refl
          ])

  module _ (s : Settings) where
    send_batch-IsKept :
        (path : FilePath) (now : ℕ) (batch : RawChangeBatch) (w : Worker)
        → (w.receiver_alive ≡ false)
          ⊎ (IsReceived path w.received ⊎ (IsWaiting path w.batch ⊎ IsIn path batch))
        → IsKept path (send_batch path_is_existing_directory s now batch w)
    unfolding send_batch mark_pending_overflowed
    send_batch-IsKept path now batch w h = elim (Bool-cases w.receiver_alive) [
      | inr e ↦ rw (e, send_batch) (inl refl)
      | inl e ↦ elim (Option-cases w.batch) [
        | inr (waiting, k) ↦ rw (e, k, send_batch) (inr (inr (inr (inr refl))))
        | inl k ↦
            rw (e, k, send_batch)
              (elim h [
                | inl gone ↦ let q = sym e ∙ gone in cc
                | inr (inl received) ↦ inr (inl received)
                | inr (inr (inl waiting)) ↦ absurd (rw k at waiting)
                | inr (inr (inr due)) ↦ inr (inr (inl due))
              ])
      ]
    ]

    flush_pending_batch-IsKept :
        (path : FilePath) (now : ℕ) (w : Worker)
        → IsKept path w
        → IsKept path (flush_pending_batch path_is_existing_directory s now w)
    unfolding flush_pending_batch
    flush_pending_batch-IsKept path now w h = elim (Bool-cases (nothing_to_send w.pending)) [
      | inl e ↦ rw (e, flush_pending_batch) h
      | inr e ↦ rw (e, flush_pending_batch) (send_batch-IsKept path now _ _ h)
    ]

    append_dropped-IsDue :
        (path : FilePath) (flag : Bool) (a : Appended)
        → IsDue path a.pending
        → IsDue path (append_dropped path_is_existing_directory s flag a).pending
    unfolding append_dropped
    append_dropped-IsDue path true a h =
        append_event_to_pending-IsDue path overflow a.pending s.filter h
    append_dropped-IsDue path false a h = h

    append_dropped_changes :
        (flag : Bool) (a : Appended)
        → a.pending_changed ≡ true
        → (append_dropped path_is_existing_directory s flag a).pending_changed ≡ true
    unfolding append_dropped
    append_dropped_changes true a h = ground (arith, h)
    append_dropped_changes false a h = h

    flush_if-IsKept :
        (path : FilePath) (flush_now : Bool) (now : ℕ) (w : Worker)
        → IsKept path w
        → IsKept path (flush_if path_is_existing_directory s flush_now now w)
    unfolding flush_if
    flush_if-IsKept path flush_now now w h =
        elim (Bool-cases (
          flush_now
          || should_flush_after_event w.first_event_at s.debounce_delay s.max_delivery_delay now)) [
            | inl e ↦ rw (e, flush_if) (flush_pending_batch-IsKept path now w h)
            | inr e ↦ rw (e, flush_if) h
          ]

    receive_event-IsKept :
        (path : FilePath) (now : ℕ) (e : NativeFsEvent) (w : Worker)
        → IsKept path w
        → IsKept path (receive_event path_is_existing_directory s now e w)
    unfolding receive_event timed
    receive_event-IsKept path now e w h =
        let a =
          append_dropped path_is_existing_directory s w.event_queue_overflowed
            (append_event_to_pending path_is_existing_directory e w.pending s.filter) in
        let after : IsKept path (record w { pending = a.pending; event_queue_overflowed = false }) =
          elim h [
            | inl gone ↦ inl gone
            | inr (inl received) ↦ inr (inl received)
            | inr (inr (inl waiting)) ↦ inr (inr (inl waiting))
            | inr (inr (inr due)) ↦ inr (
                inr (
                  inr (
                    append_dropped-IsDue path w.event_queue_overflowed _
                      (append_event_to_pending-IsDue path e w.pending s.filter due))))
          ] in
        elim (Bool-cases a.pending_changed) [
          | inr k ↦ rw (k, receive_event) after
          | inl k ↦ rw (k, receive_event) (flush_if-IsKept path a.flush_now now _ after)
        ]

    pub IsReceived-append :
        (path : FilePath) (batches : List RawChangeBatch) (batch : RawChangeBatch)
        → IsReceived path batches ⊎ IsIn path batch
        → IsReceived path (batches ++ batch ∷ [])
    IsReceived-append path [] batch (inl m) = absurd m
    IsReceived-append path [] batch (inr h) = inl h
    IsReceived-append path (b ∷ bs) batch (inl (inl h)) = inl h
    IsReceived-append path (b ∷ bs) batch (inl (inr m)) =
        inr (IsReceived-append path bs batch (inl m))
    IsReceived-append path (b ∷ bs) batch (inr h) = inr (IsReceived-append path bs batch (inr h))

    pub take_batch-IsKept :
        (path : FilePath) (waiting : Option RawChangeBatch) (w : Worker)
        → w.batch ≡ waiting
        → IsKept path w
        → IsKept path (take_batch path_is_existing_directory s waiting w)
    unfolding take_batch
    take_batch-IsKept path none w same h = h
    take_batch-IsKept path (some batch) w same (inl gone) = inl gone
    take_batch-IsKept path (some batch) w same (inr (inl received)) =
        inr (inl (IsReceived-append path w.received batch (inl received)))
    take_batch-IsKept path (some batch) w same (inr (inr (inl waiting))) =
        inr (inl (IsReceived-append path w.received batch (inr (rw same at waiting))))
    take_batch-IsKept path (some batch) w same (inr (inr (inr due))) = inr (inr (inr due))

    pub step-IsKept :
        (path : FilePath) (input : Input path_is_existing_directory s) (w : Worker)
        → IsKept path w
        → IsKept path (step path_is_existing_directory s input w)
    unfolding step
    step-IsKept path (event now e) w h =
        if_keeps (IsKept path) w.running _ _ (receive_event-IsKept path now e w h) h
    step-IsKept path (timeout now) w h =
        if_keeps (IsKept path) w.running _ _ (flush_pending_batch-IsKept path now w h) h
    step-IsKept path (disconnected now) w h =
        if_keeps (IsKept path) w.running _ _ (flush_pending_batch-IsKept path now w h) h
    step-IsKept path dropped w h = h
    step-IsKept path try_recv w h = take_batch-IsKept path w.batch w refl h
    step-IsKept path receiver_dropped w h = inl refl

    run-IsKept :
        (path : FilePath) (inputs : List (Input path_is_existing_directory s)) (w : Worker)
        → IsKept path w
        → IsKept path (run path_is_existing_directory s inputs w)
    unfolding run
    run-IsKept path [] w h = h
    run-IsKept path (input ∷ inputs) w h = run-IsKept path inputs _ (step-IsKept path input w h)

    pub step-event-IsKept :
        (path : FilePath) (now : ℕ) (may_change folder removes : Bool) (w : Worker)
        → w.running ≡ true
        → should_keep_event_path path_is_existing_directory path may_change folder removes s.filter
          ≡ true
        → IsKept path (
            step path_is_existing_directory s
              (event now (changed path may_change folder removes))
              w)
    unfolding step receive_event timed
    step-event-IsKept path now may_change folder removes w alive keep =
        let first =
          append_event_to_pending path_is_existing_directory
            (changed path may_change folder removes) w.pending s.filter in
        let due =
          append_dropped-IsDue path w.event_queue_overflowed first
            (kept_event-IsDue path may_change folder removes w.pending s.filter keep) in
        let changes =
          append_dropped_changes w.event_queue_overflowed first
            (kept_event_changes path may_change folder removes w.pending s.filter keep) in
        rw (alive, step)
          (rw (changes, receive_event) (flush_if-IsKept path _ now _ (inr (inr (inr due)))))

    -- The same of a change that passes the filter. A worker that has ended may hold pending paths for
    -- ever, which Ended excludes.
    pub run-event-IsKept :
        (path : FilePath) (now : ℕ) (may_change folder removes : Bool) (w : Worker)
        (later : List (Input path_is_existing_directory s))
        → w.running ≡ true
        → should_keep_event_path path_is_existing_directory path may_change folder removes s.filter
          ≡ true
        → IsKept path (
            run path_is_existing_directory s
              (event now (changed path may_change folder removes) ∷ later)
              w)
    unfolding run
    run-event-IsKept path now may_change folder removes w later alive keep =
        run-IsKept path later _ (step-event-IsKept path now may_change folder removes w alive keep)
