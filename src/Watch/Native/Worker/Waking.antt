-- ===== src/Watch/Native/Worker/Waking.antt =====
-- The worker's wait for an event ends in time while something is pending.
use scriptmetakit.Paths.{FilePath}
use scriptmetakit.Prelude.{
  ℕ, ◌≤◌, Bool, true, false, List, [], ◌∷◌, Option, none, some, if_keeps, All, ◌≡◌, refl, sym, ◌∙◌,
  subst, Bool-cases, Option-cases, ◌⊎◌, inl, inr, arith,
}
use scriptmetakit.Watch.Native.Worker.{
  Settings, Worker, started, nothing_pending, is_empty_list, nothing_to_send, min, deadline,
  next_flush_timeout, send_batch, flush_pending_batch, append_dropped, timed, flush_if,
  receive_event, Input, event, timeout, dropped, disconnected, try_recv, receiver_dropped,
  take_batch, step, run,
}
use scriptmetakit.Watch.Native.{
  NativeFsEvent, changed, overflow, NativeEventFilter, should_keep_event_path, Pending,
  pending_exceeded_max, Appended, with_path, append_path, append_event_to_pending,
}
use scriptmetakit.Watch.Types.{RawChangeBatch}

-- Both times are there and have passed.
abbrev pub IsTimed : ℕ → Option ℕ → Option ℕ → Type 0
IsTimed now (some first) (some last) = (first ≤ now) × (last ≤ now)
IsTimed now (some first) none = ⊥
IsTimed now none last = ⊥

abbrev pub IsPast : ℕ → Option ℕ → Type 0
IsPast now none = Unit
IsPast now (some first) = first ≤ now

-- What the wait is bounded by: the debounce delay, and the delay of delivery if there is one.
abbrev pub IsBounded : ℕ → Option ℕ → ℕ → Type 0
IsBounded debounce_delay none wait = wait ≤ debounce_delay
IsBounded debounce_delay (some delay) wait = (wait ≤ debounce_delay) × (wait ≤ delay)

next_flush_timeout-IsBounded :
    (first last : Option ℕ) (debounce_delay : ℕ) (max_delivery_delay : Option ℕ) (now : ℕ)
    → IsTimed now first last
    → (wait : ℕ) × (next_flush_timeout first last debounce_delay max_delivery_delay now ≡ some wait)
      × IsBounded debounce_delay max_delivery_delay wait
unfolding next_flush_timeout deadline min
next_flush_timeout-IsBounded none last debounce_delay delay now h = absurd h
next_flush_timeout-IsBounded (some first) none debounce_delay delay now h = absurd h
next_flush_timeout-IsBounded (some first) (some last) debounce_delay none now (h, k) =
    (_, refl, omega (arith, k))
next_flush_timeout-IsBounded (some first) (some last) debounce_delay (some delay) now (h, k) =
    (_, refl, (ground (arith, h, k), ground (arith, h, k)))

module _ (path_is_existing_directory : FilePath → Bool) (s : Settings) where
  -- Nothing is pending, or the times of the first and the last event are set.
  abbrev pub IsAwake : ℕ → Worker → Type 0
  IsAwake now w =
      IsPast now w.first_event_at
      × ((nothing_to_send w.pending ≡ true) ⊎ IsTimed now w.first_event_at w.last_event_at)

  -- The input does not come later than `now`.
  abbrev pub IsBefore : ℕ → Input path_is_existing_directory s → Type 0
  IsBefore now (event at_time e) = at_time ≤ now
  IsBefore now (timeout at_time) = at_time ≤ now
  IsBefore now (disconnected at_time) = at_time ≤ now
  IsBefore now dropped = Unit
  IsBefore now try_recv = Unit
  IsBefore now receiver_dropped = Unit

  unchanged :
      (e : NativeFsEvent) (p : Pending) (filter : NativeEventFilter)
      → (append_event_to_pending path_is_existing_directory e p filter).pending_changed ≡ false
      → (append_event_to_pending path_is_existing_directory e p filter).pending ≡ p
  unfolding append_event_to_pending append_path
  unchanged overflow p filter h = cc
  unchanged (changed path may_change folder removes) p filter h =
      elim (Bool-cases
        (should_keep_event_path path_is_existing_directory path may_change folder removes filter)) [
          | inr e ↦ rw (e, append_event_to_pending) refl
          | inl e ↦
              elim (Bool-cases
                (pending_exceeded_max (with_path path p).paths filter.max_pending_paths)) [
                  | inl k ↦ let q = (rw (e, k, append_event_to_pending) at h) in cc
                  | inr k ↦ let q = (rw (e, k, append_event_to_pending) at h) in cc
                ]
        ]

  unchanged_dropped :
      (flag : Bool) (a : Appended)
      → (append_dropped path_is_existing_directory s flag a).pending_changed ≡ false
      → ((append_dropped path_is_existing_directory s flag a).pending ≡ a.pending)
        × (a.pending_changed ≡ false)
  unfolding append_dropped append_event_to_pending
  unchanged_dropped true a h = let q : true ≡ false = ground (arith, h) in cc
  unchanged_dropped false a h = (refl, h)

  send_batch-IsAwake :
      (now at_time : ℕ) (batch : RawChangeBatch) (w : Worker)
      → at_time ≤ now
      → w.pending ≡ nothing_pending
      → IsPast now w.first_event_at
      → IsAwake now (send_batch path_is_existing_directory s at_time batch w)
  unfolding send_batch nothing_to_send is_empty_list
  send_batch-IsAwake now at_time batch w h empty past = elim (Bool-cases w.receiver_alive) [
    | inr e ↦ rw (e, send_batch) (past, inl (rw empty refl))
    | inl e ↦ elim (Option-cases w.batch) [
      | inl k ↦ rw (e, k, send_batch) (past, inl (rw empty refl))
      | inr (waiting, k) ↦ rw (e, k, send_batch) (h, inr (h, h))
    ]
  ]

  flush_pending_batch-IsAwake :
      (now at_time : ℕ) (w : Worker)
      → at_time ≤ now
      → IsAwake now (flush_pending_batch path_is_existing_directory s at_time w)
  unfolding flush_pending_batch
  flush_pending_batch-IsAwake now at_time w h = elim (Bool-cases (nothing_to_send w.pending)) [
    | inl e ↦ rw (e, flush_pending_batch) (tt, inl e)
    | inr e ↦ rw (e, flush_pending_batch) (send_batch-IsAwake now at_time _ _ h refl tt)
  ]

  first_of : Option ℕ → ℕ → Option ℕ
  first_of first at_time = elim first [ some earlier ↦ some earlier | none ↦ some at_time ]

  first_of-IsPast :
      (now at_time : ℕ) (first : Option ℕ)
      → at_time ≤ now
      → IsPast now first
      → IsPast now (first_of first at_time) × IsTimed now (first_of first at_time) (some at_time)
  unfolding first_of
  first_of-IsPast now at_time none h k = (h, (h, h))
  first_of-IsPast now at_time (some earlier) h k = (k, (k, h))

  timed-IsAwake :
      (now at_time : ℕ) (w : Worker)
      → at_time ≤ now
      → IsPast now w.first_event_at
      → IsAwake now (timed path_is_existing_directory s at_time w)
  unfolding timed first_of
  timed-IsAwake now at_time w h k =
      let times = first_of-IsPast now at_time w.first_event_at h k in (times.0, inr times.1)

  receive_event-IsAwake :
      (now at_time : ℕ) (e : NativeFsEvent) (w : Worker)
      → at_time ≤ now
      → IsAwake now w
      → IsAwake now (receive_event path_is_existing_directory s at_time e w)
  unfolding receive_event flush_if
  receive_event-IsAwake now at_time e w h (past, awake) =
      let first = append_event_to_pending path_is_existing_directory e w.pending s.filter in
      let a = append_dropped path_is_existing_directory s w.event_queue_overflowed first in
      elim (Bool-cases a.pending_changed) [
        | inr k ↦
            let quiet = unchanged_dropped w.event_queue_overflowed first k in
            let same : a.pending ≡ w.pending = quiet.0 ∙ unchanged e w.pending s.filter quiet.1 in
            rw (k, receive_event)
              (
                past,
                subst
                    (λ p. (nothing_to_send p ≡ true) ⊎ IsTimed now w.first_event_at w.last_event_at)
                    (sym same) awake,
              )
        | inl k ↦
            rw (k, receive_event)
              (if_keeps (IsAwake now) _ _ _ (flush_pending_batch-IsAwake now at_time _ h)
                (timed-IsAwake now at_time _ h past))
      ]

  take_batch-IsAwake :
      (now : ℕ) (waiting : Option RawChangeBatch) (w : Worker)
      → IsAwake now w
      → IsAwake now (take_batch path_is_existing_directory s waiting w)
  unfolding take_batch
  take_batch-IsAwake now none w h = h
  take_batch-IsAwake now (some batch) w h = h

  step-IsAwake :
      (now : ℕ) (input : Input path_is_existing_directory s) (w : Worker)
      → IsBefore now input
      → IsAwake now w
      → IsAwake now (step path_is_existing_directory s input w)
  unfolding step
  step-IsAwake now (event at_time e) w h k =
      if_keeps (IsAwake now) w.running _ _ (receive_event-IsAwake now at_time e w h k) k
  step-IsAwake now (timeout at_time) w h k =
      if_keeps (IsAwake now) w.running _ _ (flush_pending_batch-IsAwake now at_time w h) k
  step-IsAwake now (disconnected at_time) w h k =
      if_keeps (IsAwake now) w.running _ _ (flush_pending_batch-IsAwake now at_time w h) k
  step-IsAwake now dropped w h k = k
  step-IsAwake now try_recv w h k = take_batch-IsAwake now w.batch w k
  step-IsAwake now receiver_dropped w h k = k

  run-IsAwake :
      (now : ℕ) (inputs : List (Input path_is_existing_directory s)) (w : Worker)
      → All (IsBefore now) inputs
      → IsAwake now w
      → IsAwake now (run path_is_existing_directory s inputs w)
  unfolding run
  run-IsAwake now [] w h k = k
  run-IsAwake now (input ∷ inputs) w h k =
      run-IsAwake now inputs _ h.1 (step-IsAwake now input w h.0 k)

  -- After any inputs up to now, while something is pending the worker waits for an event with a
  -- timeout, which is at most the debounce delay and, if there is one, at most the delay of delivery.
  pub run-IsBounded :
      (now : ℕ) (inputs : List (Input path_is_existing_directory s))
      → All (IsBefore now) inputs
      → nothing_to_send (run path_is_existing_directory s inputs started).pending ≡ false
      → (let w = run path_is_existing_directory s inputs started in
          (wait : ℕ) × (next_flush_timeout w.first_event_at w.last_event_at s.debounce_delay
              s.max_delivery_delay now
            ≡ some wait)
          × IsBounded s.debounce_delay s.max_delivery_delay wait)
  unfolding nothing_to_send is_empty_list
  run-IsBounded now inputs h waiting = elim (run-IsAwake now inputs started h (tt, inl refl)).1 [
    | inl idle_now ↦ let q = sym idle_now ∙ waiting in cc
    | inr times ↦ next_flush_timeout-IsBounded _ _ s.debounce_delay s.max_delivery_delay now times
  ]
