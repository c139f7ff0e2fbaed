-- ===== src/Operation/Tests.antt =====
-- Runs of src/core/operation.rs, and the theorems at concrete inputs.
use scriptmetakit.Operation.Flags.{Status, flags_of, apply_status, apply-apply_status}
use scriptmetakit.Operation.Listeners.{listener_called}
use scriptmetakit.Operation.Traces.{begin_scope_uncancelled, reserve-begin_scope}
use scriptmetakit.Operation.{
  reserve, begin_next, cancel_now, cancel_or_reserve, end_scope, apply, run, new, is_cancelled,
  is_active, cancel, begin_scope, insert_listener, call_if_cancelled, begin_flags, cancel_flags,
  interleave, is_done, cancel_program, notify_program, call_listeners, register_program, take_id,
  register_cancel_listener,
}
use scriptmetakit.Prelude.{Bool, List, ◌≡◌, refl, true, false, inl, [], ◌∷◌, Elem}

abbrev active_flags : Status
active_flags = record { active = true; cancelled = false; pending = false; reserved = true }

apply-apply_status_example :
    (apply cancel_now (record new { flags = 9 })).flags
    ≡ flags_of (apply_status cancel_now active_flags)
apply-apply_status_example =
    apply-apply_status cancel_now (record new { flags = 9 }) active_flags refl

begin_scope_uncancelled_example :
    is_cancelled (
      apply begin_next (
        run
          (cancel_or_reserve ∷ end_scope ∷ [])
          (apply begin_next (run (reserve ∷ cancel_or_reserve ∷ []) new))))
    ≡ false
begin_scope_uncancelled_example =
    begin_scope_uncancelled (reserve ∷ cancel_or_reserve ∷ []) (cancel_or_reserve ∷ end_scope ∷ [])
      begin_next (inl refl) refl

reserve-begin_scope_example :
    is_cancelled
      (apply begin_next (run (cancel_now ∷ cancel_or_reserve ∷ []) (apply reserve (run [] new))))
    ≡ true
unfolding run is_active new
reserve-begin_scope_example = reserve-begin_scope [] (cancel_now ∷ cancel_or_reserve ∷ []) refl refl

-- The flag is set between the insertion and the test, so both threads call the listener.
abbrev raced : List Bool
raced = false ∷ false ∷ true ∷ false ∷ true ∷ true ∷ false ∷ []

listener_called_example :
    let s = run (begin_next ∷ []) new in
    Elem (register_cancel_listener s).1 (interleave raced cancel_program register_program s).2.calls
    × Elem (register_cancel_listener s).1 (register_cancel_listener (cancel s)).0.calls
    × Elem (register_cancel_listener s).1 (cancel (register_cancel_listener s).0).calls
unfolding run apply begin_scope new begin_flags is_active is_cancelled cancel_flags interleave
    is_done cancel_program notify_program call_listeners register_program take_id insert_listener
    call_if_cancelled
listener_called_example = listener_called (begin_next ∷ []) raced refl refl refl
