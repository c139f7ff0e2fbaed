-- ===== src/Watch/Native/Worker/Delivered.antt =====
-- A change reaches the consumer.
use scriptmetakit.Paths.{FilePath}
use scriptmetakit.Prelude.{
  ℕ, Bool, true, List, [], ◌∷◌, Option, none, some, if◌then◌else◌, ◌≡◌, refl, sym, ◌∙◌, subst,
  Bool-cases, ◌⊎◌, inl, inr,
}
use scriptmetakit.Watch.Native.Worker.Kept.{
  IsDue, IsReceived, IsKept, nothing_to_send-IsDue, IsReceived-append, take_batch-IsKept,
  run-event-IsKept,
}
use scriptmetakit.Watch.Native.Worker.{
  Settings, Worker, nothing_to_send, send_batch, flush_pending_batch, Input, event, timeout,
  try_recv, take_batch, step, run,
}
use scriptmetakit.Watch.Native.{changed, should_keep_event_path}
use scriptmetakit.Watch.Types.{RawChangeBatch}

module _ (path_is_existing_directory : FilePath → Bool) (s : Settings) where
  -- The channel is empty and the worker runs for a receiver that is there.
  abbrev IsReady : Worker → Type 0
  IsReady w = (w.batch ≡ none) × (w.running ≡ true) × (w.receiver_alive ≡ true)

  take_batch-IsReady :
      (waiting : Option RawChangeBatch) (w : Worker)
      → w.batch ≡ waiting
      → w.running ≡ true
      → w.receiver_alive ≡ true
      → IsReady (take_batch path_is_existing_directory s waiting w)
  unfolding take_batch
  take_batch-IsReady none w same h k = (same, h, k)
  take_batch-IsReady (some batch) w same h k = (refl, h, k)

  flush_delivers :
      (path : FilePath) (now : ℕ) (w : Worker)
      → IsReady w
      → IsReceived path w.received ⊎ IsDue path w.pending
      → (let v = flush_pending_batch path_is_existing_directory s now w in
          IsReceived path (take_batch path_is_existing_directory s v.batch v).received)
  unfolding flush_pending_batch send_batch take_batch
  flush_delivers path now w (empty, runs, alive) h = elim (Bool-cases (nothing_to_send w.pending)) [
    | inl e ↦
        rw (e, flush_pending_batch)
          (rw (empty, take_batch)
            (elim h [
              | inl received ↦ received
              | inr due ↦ absurd (nothing_to_send-IsDue path w.pending e due)
            ]))
    | inr e ↦
        rw (e, flush_pending_batch)
          (rw (alive, send_batch)
            (rw (empty, send_batch)
              (IsReceived-append path_is_existing_directory s path w.received _ h)))
  ]

  ready_delivers :
      (path : FilePath) (now : ℕ) (w : Worker)
      → IsReady w
      → IsKept path w
      → IsReceived path (run path_is_existing_directory s (timeout now ∷ try_recv ∷ []) w).received
  unfolding run step
  ready_delivers path now w (empty, runs, alive) h =
      let left : IsReceived path w.received ⊎ IsDue path w.pending = elim h [
        | inl gone ↦ let q = sym alive ∙ gone in cc
        | inr (inl received) ↦ inl received
        | inr (inr (inl waiting)) ↦ absurd (rw empty at waiting)
        | inr (inr (inr due)) ↦ inr due
      ] in
      subst
        (λ b.
          (let v = if b then flush_pending_batch path_is_existing_directory s now w else w in
            IsReceived path (take_batch path_is_existing_directory s v.batch v).received))
        (sym runs) (flush_delivers path now w (empty, runs, alive) left)

  -- A change that passes the filter is received at last: whatever has happened since, while the worker
  -- still runs for a receiver that is there, once the consumer calls `try_recv`, the worker's wait
  -- times out and the consumer calls `try_recv` again, a batch has been received that names the path
  -- or asks for a full rescan.
  pub run-event-IsReceived :
      (path : FilePath) (now later_now : ℕ) (may_change folder removes : Bool) (w : Worker)
      (later : List (Input path_is_existing_directory s))
      → w.running ≡ true
      → should_keep_event_path path_is_existing_directory path may_change folder removes s.filter
        ≡ true
      → (run path_is_existing_directory s
          (event now (changed path may_change folder removes) ∷ later)
          w).running
        ≡ true
      → (run path_is_existing_directory s
          (event now (changed path may_change folder removes) ∷ later)
          w).receiver_alive
        ≡ true
      → IsReceived path
          (run path_is_existing_directory s (try_recv ∷ timeout later_now ∷ try_recv ∷ []) (
            run path_is_existing_directory s
              (event now (changed path may_change folder removes) ∷ later)
              w)).received
  unfolding run step
  run-event-IsReceived path now later_now may_change folder removes w later running keep runs
        alive =
      let v =
        run path_is_existing_directory s
          (event now (changed path may_change folder removes) ∷ later) w in
      let kept =
        run-event-IsKept path_is_existing_directory s path now may_change folder removes w later
          running keep in
      ready_delivers path later_now (take_batch path_is_existing_directory s v.batch v)
        (take_batch-IsReady v.batch v refl runs alive)
        (take_batch-IsKept path_is_existing_directory s path v.batch v refl kept)
