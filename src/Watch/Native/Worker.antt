-- ===== src/Watch/Native/Worker.antt =====
-- src/watcher/native.rs: the worker thread, the channel of one batch that it fills, and the consumer
-- that takes batches from it. An instant is a number, and so is a delay; each step is given the time
-- at which it happens.
pub mod Kept
pub mod Ended
pub mod Delivered
pub mod Waking
mod Tests
use scriptmetakit.Paths.{FilePath}
use scriptmetakit.Prelude.{
  ℕ, suc, ◌+◌, ◌-◌, Bool, true, false, not, ◌&&◌, ◌||◌, List, [], ◌∷◌, ◌++◌, Option, none, some,
  ◌==◌, leb, if◌then◌else◌, is_some,
}
use scriptmetakit.Watch.Native.{
  NativeFsEvent, changed, overflow, NativeEventFilter, Pending, mark_pending_overflowed, Appended,
  append_event_to_pending,
}
use scriptmetakit.Watch.Types.{RawChangeBatch}

-- What the worker is started with. The flag tells whether there is a notifier.
pub record Settings : Type 0 where
  pub filter : NativeEventFilter
  pub debounce_delay : ℕ
  pub max_delivery_delay : Option ℕ
  pub has_notifier : Bool

-- The worker's variables, the flag that the platform's callbacks set, the channel, whose receiver may
-- be gone, the number of calls of the notifier, and the batches that `try_recv` has returned.
pub record Worker : Type 0 where
  pub pending : Pending
  pub first_event_at : Option ℕ
  pub last_event_at : Option ℕ
  pub event_queue_overflowed : Bool
  pub running : Bool
  pub batch : Option RawChangeBatch
  pub receiver_alive : Bool
  pub notified : ℕ
  pub received : List RawChangeBatch

abbrev pub nothing_pending : Pending
nothing_pending = record { paths = []; overflowed = false }

abbrev pub started : Worker
started = record {
  pending = nothing_pending;
  first_event_at = none;
  last_event_at = none;
  event_queue_overflowed = false;
  running = true;
  batch = none;
  receiver_alive = true;
  notified = 0;
  received = [];
}

pub is_empty_list : List FilePath → Bool
is_empty_list [] = true
is_empty_list (_ ∷ _) = false

pub nothing_to_send : Pending → Bool
nothing_to_send p = is_empty_list p.paths && not p.overflowed

-- The deadline is reached when the later of two instants is at least the delay after the earlier.
pub elapsed_at_least : Option ℕ → Option ℕ → ℕ → Bool
elapsed_at_least (some first) (some delay) now = leb delay (now - first)
elapsed_at_least (some first) none now = false
elapsed_at_least none max_delivery_delay now = false

pub should_flush_after_event : Option ℕ → ℕ → Option ℕ → ℕ → Bool
should_flush_after_event first_event_at debounce_delay max_delivery_delay now =
    debounce_delay == 0 || elapsed_at_least first_event_at max_delivery_delay now

pub min : ℕ → ℕ → ℕ
min a b = if leb a b then a else b

pub deadline : ℕ → ℕ → ℕ → Option ℕ → ℕ
deadline first last debounce_delay none = last + debounce_delay
deadline first last debounce_delay (some delay) = min (first + delay) (last + debounce_delay)

-- `saturating_duration_since` stops at 0.
pub next_flush_timeout : Option ℕ → Option ℕ → ℕ → Option ℕ → ℕ → Option ℕ
next_flush_timeout (some first) (some last) debounce_delay max_delivery_delay now =
    some (deadline first last debounce_delay max_delivery_delay - now)
next_flush_timeout (some first) none debounce_delay max_delivery_delay now = none
next_flush_timeout none last debounce_delay max_delivery_delay now = none

module _ (path_is_existing_directory : FilePath → Bool) (s : Settings) where
  -- `try_send` on the channel of one batch; the worker ends when the receiver is gone.
  pub send_batch : ℕ → RawChangeBatch → Worker → Worker
  send_batch now batch w =
      if not w.receiver_alive then record w { running = false } else elim w.batch [
        | some waiting ↦ record w {
          pending = mark_pending_overflowed s.filter.overflow_paths;
          first_event_at = some now;
          last_event_at = some now;
        }
        | none ↦ record w {
          batch = some batch;
          notified = if s.has_notifier then suc w.notified else w.notified;
        }
      ]

  abbrev pub idle : Worker → Worker
  idle w = record w { first_event_at = none; last_event_at = none }

  pub flush_pending_batch : ℕ → Worker → Worker
  flush_pending_batch now w =
      if nothing_to_send w.pending
      then idle w
      else send_batch now (record { paths = w.pending.paths; overflowed = w.pending.overflowed })
          (record (idle w) { pending = nothing_pending })

  -- The second call of `append_event_to_pending`, if the callbacks have dropped an event.
  pub append_dropped : Bool → Appended → Appended
  append_dropped dropped a =
      if dropped
      then (let more =
            append_event_to_pending path_is_existing_directory overflow a.pending s.filter in
          record {
            pending = more.pending;
            pending_changed = a.pending_changed || more.pending_changed;
            flush_now = a.flush_now || more.flush_now;
          })
      else a

  -- The times of the first and of the last event.
  pub timed : ℕ → Worker → Worker
  timed now w = record w {
    first_event_at = elim w.first_event_at [ some first ↦ some first | none ↦ some now ];
    last_event_at = some now;
  }

  pub flush_if : Bool → ℕ → Worker → Worker
  flush_if flush_now now w =
      if flush_now
        || should_flush_after_event w.first_event_at s.debounce_delay s.max_delivery_delay now
      then flush_pending_batch now w
      else w

  -- `Ok(event)`.
  pub receive_event : ℕ → NativeFsEvent → Worker → Worker
  receive_event now event w =
      let a =
        append_dropped w.event_queue_overflowed
          (append_event_to_pending path_is_existing_directory event w.pending s.filter) in
      let appended = record w { pending = a.pending; event_queue_overflowed = false } in
      if a.pending_changed then flush_if a.flush_now now (timed now appended) else appended

  -- What can happen: an event arrives, the wait for one times out, a callback drops an event since the
  -- queue is full, the platform's callbacks are gone, the consumer calls `try_recv`, or it goes away.
  pub data Input : Type 0 where
    event : ℕ → NativeFsEvent → Input
    timeout : ℕ → Input
    dropped : Input
    disconnected : ℕ → Input
    try_recv : Input
    receiver_dropped : Input

  pub take_batch : Option RawChangeBatch → Worker → Worker
  take_batch none w = w
  take_batch (some batch) w = record w { batch = none; received = w.received ++ batch ∷ [] }

  pub step : Input → Worker → Worker
  step (event now e) w = if w.running then receive_event now e w else w
  step (timeout now) w = if w.running then flush_pending_batch now w else w
  step dropped w = record w { event_queue_overflowed = true }
  step (disconnected now) w =
      if w.running then record (flush_pending_batch now w) { running = false } else w
  step try_recv w = take_batch w.batch w
  step receiver_dropped w = record w { receiver_alive = false }

  pub run : List Input → Worker → Worker
  run [] w = w
  run (input ∷ inputs) w = run inputs (step input w)
