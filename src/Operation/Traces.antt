-- ===== src/Operation/Traces.antt =====
-- What holds of the flags after any sequence of calls.
use scriptmetakit.Operation.Flags.{
  Status, flags_of, apply_status, apply-apply_status, is_cancelled-flags_of, is_active-flags_of,
}
use scriptmetakit.Operation.{
  OperationCancellation, Op, reserve, begin_next, cancel_now, cancel_or_reserve, end_reservation,
  register, unregister, apply, run, new, is_cancelled, is_active,
}
use scriptmetakit.Prelude.{
  ◌≡◌, refl, sym, ◌∙◌, ◌⊎◌, Bool, true, false, ◌||◌, List, [], ◌∷◌, arith, any, all,
}

abbrev idle : Status
idle = record { active = false; cancelled = false; pending = false; reserved = false }

new-idle : new.flags ≡ flags_of idle
unfolding new
new-idle = refl

run_status : List Op → Status → Status
run_status [] b = b
run_status (op ∷ ops) b = run_status ops (apply_status op b)

run-run_status :
    (ops : List Op) (s : OperationCancellation) (b : Status)
    → s.flags ≡ flags_of b
    → (run ops s).flags ≡ flags_of (run_status ops b)
unfolding run run_status
run-run_status [] s b h = h
run-run_status (op ∷ ops) s b h =
    run-run_status ops (apply op s) (apply_status op b) (apply-apply_status op s b h)

-- The flag byte of every reachable object stands for a status.
pub flags_of-run : (ops : List Op) → (b : Status) × ((run ops new).flags ≡ flags_of b)
flags_of-run ops = (run_status ops idle, run-run_status ops new idle new-idle)

-- A cancelled status is active, and a pending one reserved.
record IsConsistent (b : Status) : Type 0 where
  cancelled_active : b.cancelled ≡ true → b.active ≡ true
  pending_reserved : b.pending ≡ true → b.reserved ≡ true

apply_status-IsConsistent :
    (op : Op) (b : Status) → IsConsistent b → IsConsistent (apply_status op b)
apply_status-IsConsistent reserve b h = ground arith
apply_status-IsConsistent _ b h = ground arith

run_status-IsConsistent :
    (ops : List Op) (b : Status) → IsConsistent b → IsConsistent (run_status ops b)
unfolding run_status
run_status-IsConsistent [] b h = h
run_status-IsConsistent (op ∷ ops) b h =
    run_status-IsConsistent ops (apply_status op b) (apply_status-IsConsistent op b h)

-- After any calls on a new object, it is cancelled only while an operation is active.
pub is_cancelled-is_active :
    (ops : List Op) → is_cancelled (run ops new) ≡ true → is_active (run ops new) ≡ true
is_cancelled-is_active ops h =
    let b = run_status ops idle in
    let e = run-run_status ops new idle new-idle in
    let ok = run_status-IsConsistent ops idle (ground arith) in
    is_active-flags_of _ b e ∙ ok.cancelled_active (sym (is_cancelled-flags_of _ b e) ∙ h)

abbrev pub is_reserve : Op → Bool
is_reserve reserve = true
is_reserve _ = false

abbrev pub is_cancel_or_reserve : Op → Bool
is_cancel_or_reserve cancel_or_reserve = true
is_cancel_or_reserve _ = false

-- Calls that neither begin nor end a scope or a reservation.
abbrev pub is_waiting : Op → Bool
is_waiting cancel_now = true
is_waiting cancel_or_reserve = true
is_waiting register = true
is_waiting (unregister _) = true
is_waiting _ = false

run_no_reserve :
    (ops : List Op) (b : Status)
    → any is_reserve ops ≡ false
    → b.pending ≡ false
    → b.reserved ≡ false
    → (run_status ops b).pending ≡ false
unfolding run_status
run_no_reserve [] b h p r = p
run_no_reserve (reserve ∷ ops) b h p r = cc
run_no_reserve (op ∷ ops) b h p r =
    run_no_reserve ops (apply_status op b) h (ground arith) (ground arith)

begin-cancelled :
    (s : OperationCancellation) (b : Status)
    → s.flags ≡ flags_of b
    → is_cancelled (apply begin_next s) ≡ b.pending
begin-cancelled s b h =
    is_cancelled-flags_of _ (apply_status begin_next b) (apply-apply_status begin_next s b h)

-- A reservation serves one scope at most: once a scope has begun, or the reservation has been
-- dropped, a later scope starts uncancelled, whatever is called in between, unless there is a new
-- reservation.
pub begin_scope_uncancelled :
    (before after : List Op) (op : Op)
    → (op ≡ begin_next) ⊎ (op ≡ end_reservation)
    → any is_reserve after ≡ false
    → is_cancelled (apply begin_next (run after (apply op (run before new)))) ≡ false
begin_scope_uncancelled before after op kind h =
    let b = run_status before idle in
    let s = apply op (run before new) in
    let e = apply-apply_status op _ b (run-run_status before new idle new-idle) in
    begin-cancelled (run after s) _ (run-run_status after s _ e)
    ∙ run_no_reserve after (apply_status op b) h (ground arith) (ground arith)

or_false : (a : Bool) → (a || false) ≡ a
or_false a = ground arith

run_waiting :
    (ops : List Op) (b : Status)
    → all is_waiting ops ≡ true
    → b.active ≡ false
    → b.reserved ≡ true
    → (run_status ops b).pending ≡ (any is_cancel_or_reserve ops || b.pending)
unfolding run_status
run_waiting [] b h a r = refl
run_waiting (reserve ∷ ops) b h a r = cc
run_waiting (op ∷ ops) b h a r = ground (arith, run_waiting ops (apply_status op b))

-- A reservation made while nothing is active hands a cancellation over: if only cancellations and
-- listener changes follow, the next scope starts cancelled exactly if one of them was
-- `cancel_current_or_reserved`.
pub reserve-begin_scope :
    (before waiting : List Op)
    → is_active (run before new) ≡ false
    → all is_waiting waiting ≡ true
    → is_cancelled (apply begin_next (run waiting (apply reserve (run before new))))
      ≡ any is_cancel_or_reserve waiting
reserve-begin_scope before waiting idle_before h =
    let b = run_status before idle in
    let s = apply reserve (run before new) in
    let e0 = run-run_status before new idle new-idle in
    let e = apply-apply_status reserve _ b e0 in
    begin-cancelled (run waiting s) _ (run-run_status waiting s _ e)
    ∙ run_waiting waiting (apply_status reserve b) h (sym (is_active-flags_of _ b e0) ∙ idle_before)
        refl
    ∙ or_false _
