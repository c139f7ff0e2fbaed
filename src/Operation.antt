-- ===== src/Operation.antt =====
-- src/core/operation.rs: cancellation of the running operation, and of one reserved ahead of it.
-- Every change of `flags` is one atomic step. A listener is known by its id; `calls` lists the
-- ids of the listeners that were called, the latest first. The poisoning of locks, and the clock
-- of `wait_for_cancellation`, are left out.
pub mod Flags
pub mod Traces
pub mod Listeners
pub mod Summary
mod Tests
use Prim.Native.Nat.{bit_and, bit_or}
use scriptmetakit.Prelude.{
  ℕ, ◌+◌, ◌-◌, ◌%◌, ◌^◌, Bool, true, false, not, List, [], ◌∷◌, ◌++◌, ◌==◌, if◌then◌else◌, filter,
  map,
}

abbrev pub operation_active : ℕ
operation_active = 1

abbrev pub operation_cancelled : ℕ
operation_cancelled = 2

abbrev pub operation_cancel_pending : ℕ
operation_cancel_pending = 4

abbrev pub operation_reserved : ℕ
operation_reserved = 8

-- `!mask` on a `u8`.
abbrev complement : ℕ → ℕ
complement mask = 255 - mask

abbrev has : ℕ → ℕ → Bool
has flags mask = not (bit_and flags mask == 0)

-- The functions that `fetch_update` and `fetch_and` apply.
unfoldable pub reserve_flags : ℕ → ℕ
reserve_flags flags =
    bit_or (bit_and flags (complement operation_cancel_pending)) operation_reserved

unfoldable pub begin_flags : ℕ → ℕ
begin_flags flags =
    if has flags operation_cancel_pending
    then bit_or operation_active operation_cancelled
    else operation_active

unfoldable pub cancel_flags : ℕ → ℕ
cancel_flags flags = if has flags operation_active then bit_or flags operation_cancelled else flags

unfoldable pub cancel_current_or_reserved_flags : ℕ → ℕ
cancel_current_or_reserved_flags flags =
    if has flags operation_active
    then bit_or flags operation_cancelled
    else if has flags operation_reserved
    then bit_or flags operation_cancel_pending
    else flags

unfoldable pub drop_scope_flags : ℕ → ℕ
drop_scope_flags flags = bit_and flags (complement (bit_or operation_active operation_cancelled))

unfoldable pub drop_reservation_flags : ℕ → ℕ
drop_reservation_flags flags =
    bit_and flags (complement (bit_or operation_reserved operation_cancel_pending))

pub record OperationCancellation : Type 0 where
  pub flags : ℕ
  pub next_listener_id : ℕ
  pub listeners : List ℕ
  pub calls : List ℕ

unfoldable pub new : OperationCancellation
new = record { flags = 0; next_listener_id = 0; listeners = []; calls = [] }

unfoldable pub is_cancelled : OperationCancellation → Bool
is_cancelled s = has s.flags operation_cancelled

unfoldable pub is_active : OperationCancellation → Bool
is_active s = has s.flags operation_active

-- What one thread does: atomic changes of the shared state, what follows one depends on the state
-- that it found. Another thread may act in between.
pub data Program : Type 0 where
  done : Program
  atomic :
      (OperationCancellation → OperationCancellation) → (OperationCancellation → Program) → Program

-- Without another thread in between.
unfoldable pub run_program : Program → OperationCancellation → OperationCancellation
run_program done s = s
run_program (atomic change later) s = run_program (later s) (change s)

unfoldable pub is_done : Program → Bool
is_done done = true
is_done (atomic change later) = false

-- Two threads, of which the first acts at each `true` of the schedule and the second at each `false`.
unfoldable pub interleave :
    List Bool
    → Program
    → Program
    → OperationCancellation
    → Program × Program × OperationCancellation
interleave [] p q s = (p, q, s)
interleave (true ∷ schedule) done q s = interleave schedule done q s
interleave (true ∷ schedule) (atomic change later) q s = interleave schedule (later s) q (change s)
interleave (false ∷ schedule) p done s = interleave schedule p done s
interleave (false ∷ schedule) p (atomic change later) s = interleave schedule p (later s) (change s)

-- `listener()`.
abbrev pub with_call : ℕ → OperationCancellation → OperationCancellation
with_call id s = record s { calls = id ∷ s.calls }

-- `for listener in listeners { listener(); }`
unfoldable pub call_listeners : List ℕ → Program
call_listeners [] = done
call_listeners (id ∷ ids) = atomic (with_call id) (λ found. call_listeners ids)

-- The values of the map are collected while it is locked.
unfoldable pub notify_program : Program
notify_program = atomic (λ s. s) (λ found. call_listeners found.listeners)

unfoldable pub notify_cancel_listeners : OperationCancellation → OperationCancellation
notify_cancel_listeners s = run_program notify_program s

unfoldable pub reserve_next_operation : OperationCancellation → OperationCancellation
reserve_next_operation s = record s { flags = reserve_flags s.flags }

unfoldable pub begin_scope : OperationCancellation → OperationCancellation
begin_scope s = record s { flags = begin_flags s.flags }

unfoldable pub cancel_program : Program
cancel_program = atomic (λ s. record s { flags = cancel_flags s.flags }) (λ found. notify_program)

unfoldable pub cancel : OperationCancellation → OperationCancellation
cancel s = run_program cancel_program s

unfoldable pub cancel_current_or_reserved_program : Program
cancel_current_or_reserved_program =
    atomic (λ s. record s { flags = cancel_current_or_reserved_flags s.flags })
      (λ found. notify_program)

unfoldable pub cancel_current_or_reserved : OperationCancellation → OperationCancellation
cancel_current_or_reserved s = run_program cancel_current_or_reserved_program s

unfoldable pub drop_scope : OperationCancellation → OperationCancellation
drop_scope s = record s { flags = drop_scope_flags s.flags }

unfoldable pub drop_reservation : OperationCancellation → OperationCancellation
drop_reservation s = record s { flags = drop_reservation_flags s.flags }

-- `fetch_add`
unfoldable pub take_id : OperationCancellation → OperationCancellation
take_id s = record s { next_listener_id = (s.next_listener_id + 1) % 2 ^ 64 }

-- `insert`: ids grow, so the map's order is the order of insertion.
unfoldable pub insert_listener : ℕ → OperationCancellation → OperationCancellation
insert_listener id s = record s { listeners = s.listeners ++ id ∷ [] }

-- `if self.is_cancelled() { listener(); }`, once the flags are loaded.
unfoldable pub call_if_cancelled : ℕ → OperationCancellation → Program
call_if_cancelled id found = if is_cancelled found then call_listeners (id ∷ []) else done

unfoldable pub register_program : Program
register_program = atomic take_id (λ before.
    atomic (insert_listener before.next_listener_id)
      (λ found. atomic (λ s. s) (call_if_cancelled before.next_listener_id)))

unfoldable pub register_cancel_listener : OperationCancellation → OperationCancellation × ℕ
register_cancel_listener s = (run_program register_program s, s.next_listener_id)

unfoldable pub drop_listener : ℕ → OperationCancellation → OperationCancellation
drop_listener id s = record s { listeners = filter (λ other. not (other == id)) s.listeners }

-- The calls that the owners of the object make, in any order.
pub data Op : Type 0 where
  reserve begin_next cancel_now cancel_or_reserve end_scope end_reservation register : Op
  unregister : ℕ → Op

unfoldable pub apply : Op → OperationCancellation → OperationCancellation
apply reserve s = reserve_next_operation s
apply begin_next s = begin_scope s
apply cancel_now s = cancel s
apply cancel_or_reserve s = cancel_current_or_reserved s
apply end_scope s = drop_scope s
apply end_reservation s = drop_reservation s
apply register s = (register_cancel_listener s).0
apply (unregister id) s = drop_listener id s

unfoldable pub run : List Op → OperationCancellation → OperationCancellation
run [] s = s
run (op ∷ ops) s = run ops (apply op s)
