-- ===== src/Watch/Native/Worker/Ended.antt =====
-- What becomes of a change when the worker ends.
use scriptmetakit.Paths.{FilePath}
use scriptmetakit.Prelude.{
  ℕ, Bool, true, false, List, [], ◌∷◌, Option, none, some, if◌then◌else◌, ◌≡◌, refl, sym, ◌∙◌,
  Bool-cases, Option-cases, ◌⊎◌, inl, inr, ◌||◌,
}
use scriptmetakit.Watch.Native.Worker.Kept.{
  IsDue, IsReceived, IsWaiting, IsKept, nothing_to_send-IsDue, step-IsKept, step-event-IsKept,
  IsReceived-append,
}
use scriptmetakit.Watch.Native.Worker.{
  Settings, Worker, nothing_to_send, should_flush_after_event, send_batch, flush_pending_batch,
  append_dropped, timed, flush_if, receive_event, Input, event, timeout, dropped, disconnected,
  try_recv, receiver_dropped, take_batch, step, run,
}
use scriptmetakit.Watch.Native.{
  NativeFsEvent, changed, should_keep_event_path, append_event_to_pending,
}
use scriptmetakit.Watch.Types.{RawChangeBatch}

if_true :
    {A : Type 0} (P : A → Type 0) (b : Bool) (x y : A) → b ≡ true → P x → P (if b then x else y)
if_true P true x y e h = h
if_true P false x y e h = cc

if_false :
    {A : Type 0} (P : A → Type 0) (b : Bool) (x y : A) → b ≡ false → P y → P (if b then x else y)
if_false P true x y e h = cc
if_false P false x y e h = h

-- The receiver is gone, or a change of the path has been received or waits in the channel.
abbrev pub IsSent : FilePath → Worker → Type 0
IsSent path w = (w.receiver_alive ≡ false) ⊎ (IsReceived path w.received ⊎ IsWaiting path w.batch)

-- The change is sent, or the worker still runs and the path or a full rescan is pending.
abbrev pub IsCarried : FilePath → Worker → Type 0
IsCarried path w = IsSent path w ⊎ ((w.running ≡ true) × IsDue path w.pending)

IsCarried-IsKept : (path : FilePath) (w : Worker) → IsCarried path w → IsKept path w
IsCarried-IsKept path w (inl (inl gone)) = inl gone
IsCarried-IsKept path w (inl (inr (inl received))) = inr (inl received)
IsCarried-IsKept path w (inl (inr (inr waiting))) = inr (inr (inl waiting))
IsCarried-IsKept path w (inr (runs, due)) = inr (inr (inr due))

-- A worker that runs for its receiver carries all that is kept.
IsKept-IsCarried :
    (path : FilePath) (w : Worker)
    → (w.running ≡ true) ⊎ (w.receiver_alive ≡ false)
    → IsKept path w
    → IsCarried path w
IsKept-IsCarried path w (inr gone) h = inl (inl gone)
IsKept-IsCarried path w (inl runs) (inl gone) = inl (inl gone)
IsKept-IsCarried path w (inl runs) (inr (inl received)) = inl (inr (inl received))
IsKept-IsCarried path w (inl runs) (inr (inr (inl waiting))) = inl (inr (inr waiting))
IsKept-IsCarried path w (inl runs) (inr (inr (inr due))) = inr (runs, due)

-- The worker runs, or the receiver is gone.
abbrev Goes : Worker → Type 0
Goes w = (w.running ≡ true) ⊎ (w.receiver_alive ≡ false)

module _ (path_is_existing_directory : FilePath → Bool) (s : Settings) where
  -- When the platform's callbacks are gone, the channel is empty.
  abbrev pub IsFree : Input path_is_existing_directory s → Worker → Type 0
  IsFree (disconnected now) w = w.batch ≡ none
  IsFree (event now e) w = Unit
  IsFree (timeout now) w = Unit
  IsFree dropped w = Unit
  IsFree try_recv w = Unit
  IsFree receiver_dropped w = Unit

  abbrev pub IsFreeAlong : List (Input path_is_existing_directory s) → Worker → Type 0
  IsFreeAlong [] w = Unit
  IsFreeAlong (input ∷ inputs) w =
      IsFree input w × IsFreeAlong inputs (step path_is_existing_directory s input w)

  send_batch-Goes :
      (now : ℕ) (batch : RawChangeBatch) (w : Worker)
      → Goes w
      → Goes (send_batch path_is_existing_directory s now batch w)
  unfolding send_batch
  send_batch-Goes now batch w h = elim (Bool-cases w.receiver_alive) [
    | inr e ↦ rw (e, send_batch) (inr refl)
    | inl e ↦ elim (Option-cases w.batch) [
      | inr (waiting, k) ↦ rw (e, k, send_batch) h
      | inl k ↦ rw (e, k, send_batch) h
    ]
  ]

  flush_pending_batch-Goes :
      (now : ℕ) (w : Worker)
      → Goes w
      → Goes (flush_pending_batch path_is_existing_directory s now w)
  unfolding flush_pending_batch
  flush_pending_batch-Goes now w h = elim (Bool-cases (nothing_to_send w.pending)) [
    | inl e ↦ rw (e, flush_pending_batch) h
    | inr e ↦ rw (e, flush_pending_batch) (send_batch-Goes now _ _ h)
  ]

  flush_if-Goes :
      (flush_now : Bool) (now : ℕ) (w : Worker)
      → Goes w
      → Goes (flush_if path_is_existing_directory s flush_now now w)
  unfolding flush_if
  flush_if-Goes flush_now now w h =
      elim (Bool-cases (
        flush_now
        || should_flush_after_event w.first_event_at s.debounce_delay s.max_delivery_delay now)) [
          | inl e ↦ rw (e, flush_if) (flush_pending_batch-Goes now w h)
          | inr e ↦ rw (e, flush_if) h
        ]

  receive_event-Goes :
      (now : ℕ) (e : NativeFsEvent) (w : Worker)
      → Goes w
      → Goes (receive_event path_is_existing_directory s now e w)
  unfolding receive_event timed
  receive_event-Goes now e w h =
      let a =
        append_dropped path_is_existing_directory s w.event_queue_overflowed
          (append_event_to_pending path_is_existing_directory e w.pending s.filter) in
      elim (Bool-cases a.pending_changed) [
        | inr k ↦ rw (k, receive_event) h
        | inl k ↦ rw (k, receive_event) (flush_if-Goes a.flush_now now _ h)
      ]

  -- A flush into an empty channel sends all that is kept.
  flush_pending_batch-IsSent :
      (path : FilePath) (now : ℕ) (w : Worker)
      → w.batch ≡ none
      → IsKept path w
      → IsSent path (flush_pending_batch path_is_existing_directory s now w)
  unfolding flush_pending_batch send_batch
  flush_pending_batch-IsSent path now w empty (inl gone) =
      elim (Bool-cases (nothing_to_send w.pending)) [
        | inl e ↦ rw (e, flush_pending_batch) (inl gone)
        | inr e ↦ rw (e, flush_pending_batch) (rw (gone, send_batch) (inl refl))
      ]
  flush_pending_batch-IsSent path now w empty (inr h) =
      elim (Bool-cases (nothing_to_send w.pending)) [
        | inl e ↦
            rw (e, flush_pending_batch)
              (elim h [
                | inl received ↦ inr (inl received)
                | inr (inl waiting) ↦ inr (inr waiting)
                | inr (inr due) ↦ absurd (nothing_to_send-IsDue path w.pending e due)
              ])
        | inr e ↦ elim (Bool-cases w.receiver_alive) [
          | inr gone ↦ rw (e, flush_pending_batch) (rw (gone, send_batch) (inl refl))
          | inl alive ↦
              rw (e, flush_pending_batch)
                (rw (alive, empty, send_batch)
                  (elim h [
                    | inl received ↦ inr (inl received)
                    | inr (inl waiting) ↦ absurd (rw empty at waiting)
                    | inr (inr due) ↦ inr (inr due)
                  ]))
        ]
      ]

  -- The steps of a worker that runs.
  running-IsCarried :
      (path : FilePath) (input : Input path_is_existing_directory s) (w : Worker)
      → w.running ≡ true
      → IsFree input w
      → IsKept path w
      → IsKept path (step path_is_existing_directory s input w)
      → IsCarried path (step path_is_existing_directory s input w)
  unfolding step take_batch
  running-IsCarried path (event now e) w runs free h k =
      IsKept-IsCarried path (step path_is_existing_directory s (event now e) w)
        (if_true Goes w.running _ _ runs (receive_event-Goes now e w (inl runs))) k
  running-IsCarried path (timeout now) w runs free h k =
      IsKept-IsCarried path (step path_is_existing_directory s (timeout now) w)
        (if_true Goes w.running _ _ runs (flush_pending_batch-Goes now w (inl runs))) k
  running-IsCarried path (disconnected now) w runs free h k =
      inl (if_true (IsSent path) w.running _ _ runs (flush_pending_batch-IsSent path now w free h))
  running-IsCarried path dropped w runs free h k =
      IsKept-IsCarried path (step path_is_existing_directory s dropped w) (inl runs) k
  running-IsCarried path try_recv w runs free h k = elim (Option-cases w.batch) [
    | inl e ↦
        IsKept-IsCarried path (step path_is_existing_directory s try_recv w) (inl (rw e runs)) k
    | inr (batch, e) ↦
        IsKept-IsCarried path (step path_is_existing_directory s try_recv w) (inl (rw e runs)) k
  ]
  running-IsCarried path receiver_dropped w runs free h k = inl (inl refl)

  take_batch-IsSent :
      (path : FilePath) (waiting : Option RawChangeBatch) (w : Worker)
      → w.batch ≡ waiting
      → IsSent path w
      → IsSent path (take_batch path_is_existing_directory s waiting w)
  unfolding take_batch
  take_batch-IsSent path none w same h = h
  take_batch-IsSent path (some batch) w same (inl gone) = inl gone
  take_batch-IsSent path (some batch) w same (inr (inl received)) =
      inr
        (inl (IsReceived-append path_is_existing_directory s path w.received batch (inl received)))
  take_batch-IsSent path (some batch) w same (inr (inr waiting)) = inr (
      inl (
        IsReceived-append path_is_existing_directory s path w.received batch
          (inr (rw same at waiting))))

  -- An ended worker changes nothing; the channel can still be read.
  ended-IsSent :
      (path : FilePath) (input : Input path_is_existing_directory s) (w : Worker)
      → w.running ≡ false
      → IsSent path w
      → IsSent path (step path_is_existing_directory s input w)
  unfolding step
  ended-IsSent path (event now e) w ended h = if_false (IsSent path) w.running _ _ ended h
  ended-IsSent path (timeout now) w ended h = if_false (IsSent path) w.running _ _ ended h
  ended-IsSent path (disconnected now) w ended h = if_false (IsSent path) w.running _ _ ended h
  ended-IsSent path dropped w ended h = h
  ended-IsSent path try_recv w ended h = take_batch-IsSent path w.batch w refl h
  ended-IsSent path receiver_dropped w ended h = inl refl

  step-IsCarried :
      (path : FilePath) (input : Input path_is_existing_directory s) (w : Worker)
      → IsFree input w
      → IsCarried path w
      → IsCarried path (step path_is_existing_directory s input w)
  step-IsCarried path input w free h = elim (Bool-cases w.running) [
    | inl runs ↦
        let k = IsCarried-IsKept path w h in
        running-IsCarried path input w runs free k
          (step-IsKept path_is_existing_directory s path input w k)
    | inr ended ↦ elim h [
      | inl sent ↦ inl (ended-IsSent path input w ended sent)
      | inr (runs, due) ↦ let q = sym ended ∙ runs in cc
    ]
  ]

  run-IsCarried :
      (path : FilePath) (inputs : List (Input path_is_existing_directory s)) (w : Worker)
      → IsFreeAlong inputs w
      → IsCarried path w
      → IsCarried path (run path_is_existing_directory s inputs w)
  unfolding run
  run-IsCarried path [] w free h = h
  run-IsCarried path (input ∷ inputs) w (free, later) h =
      run-IsCarried path inputs _ later (step-IsCarried path input w free h)

  -- A change passes the filter while the worker runs, and whenever the platform's callbacks are
  -- gone afterwards, the channel is empty. Then, unless the receiver goes away, a batch that
  -- names the path or asks for a full rescan has been received or waits in the channel, or the
  -- worker still runs and the path or a full rescan is pending.
  pub run-event-IsCarried :
      (path : FilePath) (now : ℕ) (may_change folder removes : Bool) (w : Worker)
      (later : List (Input path_is_existing_directory s))
      → w.running ≡ true
      → should_keep_event_path path_is_existing_directory path may_change folder removes s.filter
        ≡ true
      → IsFreeAlong (event now (changed path may_change folder removes) ∷ later) w
      → IsCarried path (
          run path_is_existing_directory s
            (event now (changed path may_change folder removes) ∷ later)
            w)
  unfolding run step
  run-event-IsCarried path now may_change folder removes w later alive keep (free, rest) =
      let e = changed path may_change folder removes in
      run-IsCarried path later _ rest (
        IsKept-IsCarried path (step path_is_existing_directory s (event now e) w)
          (if_true Goes w.running _ _ alive (receive_event-Goes now e w (inl alive)))
          (step-event-IsKept path_is_existing_directory s path now may_change folder removes w alive
            keep))
