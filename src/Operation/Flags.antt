-- ===== src/Operation/Flags.antt =====
-- The flag byte stands for four Booleans, and the operations for functions on these.
use scriptmetakit.Operation.{
  OperationCancellation, Op, reserve, begin_next, cancel_now, cancel_or_reserve, end_scope,
  end_reservation, register, unregister, apply, reserve_flags, begin_flags, cancel_flags,
  cancel_current_or_reserved_flags, drop_scope_flags, drop_reservation_flags, is_cancelled,
  is_active, reserve_next_operation, begin_scope, cancel, cancel_current_or_reserved, drop_scope,
  drop_reservation, register_cancel_listener, insert_listener, call_if_cancelled, drop_listener,
  run_program, call_listeners, notify_program, cancel_program, cancel_current_or_reserved_program,
  register_program, take_id, with_call,
}
use scriptmetakit.Prelude.{
  ℕ, ◌+◌, ◌≡◌, refl, ap, ◌∙◌, Bool, true, false, not, ◌&&◌, ◌||◌, if◌then◌else◌, ◌==◌, ==_iff,
  and_true, List, [], ◌∷◌, arith, Bool-cases, inl, inr,
}

pub record Status : Type 0 where
  pub active : Bool
  pub cancelled : Bool
  pub pending : Bool
  pub reserved : Bool

abbrev pub encode : Bool → Bool → Bool → Bool → ℕ
encode a c p r =
    (if a then 1 else 0) + (if c then 2 else 0) + (if p then 4 else 0) + (if r then 8 else 0)

abbrev pub flags_of : Status → ℕ
flags_of b = encode b.active b.cancelled b.pending b.reserved

-- What each operation does to the four Booleans.
abbrev pub apply_status : Op → Status → Status
apply_status reserve b = record b { pending = false; reserved = true }
apply_status begin_next b = record {
  active = true;
  cancelled = b.pending;
  pending = false;
  reserved = false;
}
apply_status cancel_now b = record b { cancelled = b.active || b.cancelled }
apply_status cancel_or_reserve b = record b {
  cancelled = b.active || b.cancelled;
  pending = (not b.active && b.reserved) || b.pending;
}
apply_status end_scope b = record b { active = false; cancelled = false }
apply_status end_reservation b = record b { pending = false; reserved = false }
apply_status register b = b
apply_status (unregister id) b = b

-- A test that passes on all sixteen values.
both : (Bool → Bool) → Bool
both f = f true && f false

both_sound : (f : Bool → Bool) → both f ≡ true → (b : Bool) → f b ≡ true
unfolding both
both_sound f h true = (and_true (f true) (f false) h).0
both_sound f h false = (and_true (f true) (f false) h).1

all_bits : (Bool → Bool → Bool → Bool → Bool) → Bool
unfolding both
all_bits f = both (λ a. both (λ c. both (λ p. both (f a c p))))

all_bits_sound :
    (f : Bool → Bool → Bool → Bool → Bool) → all_bits f ≡ true → (a c p r : Bool) → f a c p r ≡ true
unfolding all_bits
all_bits_sound f h a c p r =
    let ha = both_sound (λ a. both (λ c. both (λ p. both (f a c p)))) h a in
    let hc = both_sound (λ c. both (λ p. both (f a c p))) ha c in
    both_sound (f a c p) (both_sound (λ p. both (f a c p)) hc p) r

reserve_bits : (a c p r : Bool) → reserve_flags (encode a c p r) ≡ encode a c false true
unfolding reserve_flags all_bits
reserve_bits a c p r = (==_iff _ _).0 (
    all_bits_sound (λ a c p r. reserve_flags (encode a c p r) == encode a c false true) refl a c p
      r)

begin_bits : (a c p r : Bool) → begin_flags (encode a c p r) ≡ encode true p false false
unfolding begin_flags all_bits
begin_bits a c p r = (==_iff _ _).0 (
    all_bits_sound (λ a c p r. begin_flags (encode a c p r) == encode true p false false) refl a c p
      r)

cancel_bits : (a c p r : Bool) → cancel_flags (encode a c p r) ≡ encode a (a || c) p r
unfolding cancel_flags all_bits
cancel_bits a c p r = (==_iff _ _).0 (
    all_bits_sound (λ a c p r. cancel_flags (encode a c p r) == encode a (a || c) p r) refl a c p r)

cancel_current_bits :
    (a c p r : Bool)
    → cancel_current_or_reserved_flags (encode a c p r) ≡ encode a (a || c) ((not a && r) || p) r
unfolding cancel_current_or_reserved_flags all_bits
cancel_current_bits a c p r = (==_iff _ _).0 (
    all_bits_sound
      (λ a c p r.
        cancel_current_or_reserved_flags (encode a c p r)
        == encode a (a || c) ((not a && r) || p) r)
      refl a c p r)

drop_scope_bits : (a c p r : Bool) → drop_scope_flags (encode a c p r) ≡ encode false false p r
unfolding drop_scope_flags all_bits
drop_scope_bits a c p r = (==_iff _ _).0 (
    all_bits_sound (λ a c p r. drop_scope_flags (encode a c p r) == encode false false p r) refl a c
      p r)

drop_reservation_bits :
    (a c p r : Bool) → drop_reservation_flags (encode a c p r) ≡ encode a c false false
unfolding drop_reservation_flags all_bits
drop_reservation_bits a c p r = (==_iff _ _).0 (
    all_bits_sound (λ a c p r. drop_reservation_flags (encode a c p r) == encode a c false false)
      refl a c p r)

pub call_listeners-flags :
    (ids : List ℕ) (s : OperationCancellation)
    → (run_program (call_listeners ids) s).flags ≡ s.flags
unfolding run_program call_listeners
call_listeners-flags [] s = refl
call_listeners-flags (id ∷ ids) s = call_listeners-flags ids (with_call id s)

call_if_cancelled-flags :
    (id : ℕ) (found s : OperationCancellation)
    → (run_program (call_if_cancelled id found) s).flags ≡ s.flags
unfolding call_if_cancelled run_program call_listeners
call_if_cancelled-flags id found s = elim (Bool-cases (is_cancelled found)) [
  | inl e ↦ rw (e, call_if_cancelled) refl
  | inr e ↦ rw (e, call_if_cancelled) refl
]

register_cancel_listener-flags :
    (s : OperationCancellation) → (register_cancel_listener s).0.flags ≡ s.flags
unfolding register_cancel_listener run_program register_program insert_listener take_id
register_cancel_listener-flags s = call_if_cancelled-flags s.next_listener_id _ _

-- Every operation on a flag byte that stands for `b` leaves one that stands for
-- `apply_status op b`.
pub apply-apply_status :
    (op : Op) (s : OperationCancellation) (b : Status)
    → s.flags ≡ flags_of b
    → (apply op s).flags ≡ flags_of (apply_status op b)
unfolding apply reserve_next_operation begin_scope cancel cancel_current_or_reserved drop_scope
    drop_reservation drop_listener cancel_program cancel_current_or_reserved_program notify_program
    run_program
apply-apply_status reserve s b h = ap reserve_flags h ∙ reserve_bits _ _ _ _
apply-apply_status begin_next s b h = ap begin_flags h ∙ begin_bits _ _ _ _
apply-apply_status cancel_now s b h =
    call_listeners-flags s.listeners _ ∙ ap cancel_flags h ∙ cancel_bits _ _ _ _
apply-apply_status cancel_or_reserve s b h =
    call_listeners-flags s.listeners _
    ∙ ap cancel_current_or_reserved_flags h
    ∙ cancel_current_bits _ _ _ _
apply-apply_status end_scope s b h = ap drop_scope_flags h ∙ drop_scope_bits _ _ _ _
apply-apply_status end_reservation s b h =
    ap drop_reservation_flags h ∙ drop_reservation_bits _ _ _ _
apply-apply_status register s b h = register_cancel_listener-flags s ∙ h
apply-apply_status (unregister id) s b h = h

agrees : Bool → Bool → Bool
agrees true b = b
agrees false b = not b

agrees_sound : (a b : Bool) → agrees a b ≡ true → a ≡ b
unfolding agrees
agrees_sound a b h = ground arith

observed : ℕ → OperationCancellation
observed flags = record { flags = flags; next_listener_id = 0; listeners = []; calls = [] }

cancelled_bit : (a c p r : Bool) → is_cancelled (observed (encode a c p r)) ≡ c
unfolding is_cancelled all_bits agrees observed
cancelled_bit a c p r =
    agrees_sound _ c
      (all_bits_sound (λ a c p r. agrees (is_cancelled (observed (encode a c p r))) c) refl a c p r)

active_bit : (a c p r : Bool) → is_active (observed (encode a c p r)) ≡ a
unfolding is_active all_bits agrees observed
active_bit a c p r =
    agrees_sound _ a
      (all_bits_sound (λ a c p r. agrees (is_active (observed (encode a c p r))) a) refl a c p r)

-- The two observers read their bits.
pub is_cancelled-flags_of :
    (s : OperationCancellation) (b : Status) → s.flags ≡ flags_of b → is_cancelled s ≡ b.cancelled
unfolding is_cancelled observed
is_cancelled-flags_of s b h = rw h (cancelled_bit b.active b.cancelled b.pending b.reserved)

pub is_active-flags_of :
    (s : OperationCancellation) (b : Status) → s.flags ≡ flags_of b → is_active s ≡ b.active
unfolding is_active observed
is_active-flags_of s b h = rw h (active_bit b.active b.cancelled b.pending b.reserved)
