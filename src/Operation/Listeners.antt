-- ===== src/Operation/Listeners.antt =====
-- A listener registered while another thread cancels is called, however the two interleave.
use scriptmetakit.Operation.Flags.{
  apply_status, apply-apply_status, is_cancelled-flags_of, is_active-flags_of, call_listeners-flags,
}
use scriptmetakit.Operation.Traces.{flags_of-run}
use scriptmetakit.Operation.{
  Op, cancel_now, apply, run, new, is_active, cancel, OperationCancellation, is_cancelled,
  cancel_flags, Program, done, atomic, is_done, interleave, with_call, call_listeners,
  notify_program, cancel_program, take_id, insert_listener, call_if_cancelled, register_program,
  register_cancel_listener, run_program,
}
use scriptmetakit.Prelude.{
  subst, ℕ, Bool, ◌≡◌, refl, sym, ◌∙◌, ◌⊎◌, inl, inr, true, false, List, [], ◌∷◌, ◌++◌, Elem,
  Bool-cases,
}

-- Where the thread that cancels stands, and the one that registers.
data Notifier : Type 0 where
  ready flagged : Notifier
  calling : List ℕ → Notifier

data Registrar : Type 0 where
  outside : Registrar
  numbered inserted : ℕ → Registrar
  telling : List ℕ → Registrar

abbrev notifier_program : Notifier → Program
notifier_program ready = cancel_program
notifier_program flagged = notify_program
notifier_program (calling ids) = call_listeners ids

abbrev registrar_program : Registrar → Program
registrar_program outside = register_program
registrar_program (numbered id) =
    atomic (insert_listener id) (λ found. atomic (λ s. s) (call_if_cancelled id))
registrar_program (inserted id) = atomic (λ s. s) (call_if_cancelled id)
registrar_program (telling ids) = call_listeners ids

abbrev with_flag : OperationCancellation → OperationCancellation
with_flag s = record s { flags = cancel_flags s.flags }

-- The listener is known to the notifier, or has been called.
abbrev Covered : Notifier → ℕ → OperationCancellation → Type 0
Covered ready me s = Elem me s.listeners ⊎ Elem me s.calls
Covered flagged me s = Elem me s.listeners ⊎ Elem me s.calls
Covered (calling ids) me s = Elem me ids ⊎ Elem me s.calls

abbrev Flagged : Notifier → OperationCancellation → Type 0
Flagged ready s = is_cancelled (with_flag s) ≡ true
Flagged flagged s = is_cancelled s ≡ true
Flagged (calling ids) s = is_cancelled s ≡ true

abbrev Known : Notifier → ℕ → OperationCancellation → Type 0
Known ready me s = Elem me s.listeners
Known flagged me s = Elem me s.listeners
Known (calling ids) me s = Unit

abbrev Safe : Registrar → Notifier → ℕ → OperationCancellation → Type 0
Safe outside n me s = s.next_listener_id ≡ me
Safe (numbered id) n me s = id ≡ me
Safe (inserted id) n me s = (id ≡ me) × Known n me s
Safe (telling ids) n me s = Elem me ids ⊎ Covered n me s

Elem-last : (a : ℕ) (xs : List ℕ) → Elem a (xs ++ a ∷ [])
Elem-last a [] = inl refl
Elem-last a (x ∷ xs) = inr (Elem-last a xs)

flag_step :
    (r : Registrar) (me : ℕ) (s : OperationCancellation)
    → Safe r ready me s
    → Safe r flagged me (with_flag s)
flag_step outside me s h = h
flag_step (numbered id) me s h = h
flag_step (inserted id) me s h = h
flag_step (telling ids) me s h = h

collect_step :
    (r : Registrar) (me : ℕ) (s : OperationCancellation)
    → Safe r flagged me s
    → Safe r (calling s.listeners) me s
collect_step outside me s h = h
collect_step (numbered id) me s h = h
collect_step (inserted id) me s h = (h.0, tt)
collect_step (telling ids) me s h = h

call_step :
    (r : Registrar) (me other : ℕ) (ids : List ℕ) (s : OperationCancellation)
    → Safe r (calling (other ∷ ids)) me s
    → Safe r (calling ids) me (with_call other s)
call_step outside me other ids s h = h
call_step (numbered id) me other ids s h = h
call_step (inserted id) me other ids s h = h
call_step (telling told) me other ids s (inl m) = inl m
call_step (telling told) me other ids s (inr (inl (inl e))) = inr (inr (inl e))
call_step (telling told) me other ids s (inr (inl (inr m))) = inr (inl m)
call_step (telling told) me other ids s (inr (inr m)) = inr (inr (inr m))

take_id_step : (n : Notifier) (s : OperationCancellation) → Flagged n s → Flagged n (take_id s)
unfolding take_id is_cancelled
take_id_step ready s f = f
take_id_step flagged s f = f
take_id_step (calling ids) s f = f

insert_step :
    (n : Notifier) (id me : ℕ) (s : OperationCancellation)
    → id ≡ me
    → Flagged n s
    → Flagged n (insert_listener id s) × Safe (inserted id) n me (insert_listener id s)
unfolding insert_listener is_cancelled
insert_step ready id me s e f = (f, (e, rw (sym e) (Elem-last id s.listeners)))
insert_step flagged id me s e f = (f, (e, rw (sym e) (Elem-last id s.listeners)))
insert_step (calling ids) id me s e f = (f, (e, tt))

tell_step :
    (n : Notifier) (other me : ℕ) (told : List ℕ) (s : OperationCancellation)
    → Flagged n s
    → Safe (telling (other ∷ told)) n me s
    → Flagged n (with_call other s) × Safe (telling told) n me (with_call other s)
unfolding is_cancelled
tell_step ready other me told s f (inl (inl e)) = (f, inr (inr (inl e)))
tell_step flagged other me told s f (inl (inl e)) = (f, inr (inr (inl e)))
tell_step (calling ids) other me told s f (inl (inl e)) = (f, inr (inr (inl e)))
tell_step ready other me told s f (inl (inr m)) = (f, inl m)
tell_step flagged other me told s f (inl (inr m)) = (f, inl m)
tell_step (calling ids) other me told s f (inl (inr m)) = (f, inl m)
tell_step ready other me told s f (inr (inl m)) = (f, inr (inl m))
tell_step flagged other me told s f (inr (inl m)) = (f, inr (inl m))
tell_step (calling ids) other me told s f (inr (inl m)) = (f, inr (inl m))
tell_step ready other me told s f (inr (inr m)) = (f, inr (inr (inr m)))
tell_step flagged other me told s f (inr (inr m)) = (f, inr (inr (inr m)))
tell_step (calling ids) other me told s f (inr (inr m)) = (f, inr (inr (inr m)))

-- Behind the test the listener is to be called, or the notifier knows it.
test_step :
    (n : Notifier) (me : ℕ) (s : OperationCancellation)
    → Flagged n s
    → Known n me s
    → (is_cancelled s ≡ true) ⊎ Covered n me s
test_step ready me s f k = inr (inl k)
test_step flagged me s f k = inr (inl k)
test_step (calling ids) me s f k = inl f

-- If both threads have finished, the listener has been called.
abbrev IsCalled : ℕ → Program × Program × OperationCancellation → Type 0
IsCalled me (p, q, t) = is_done p ≡ true → is_done q ≡ true → Elem me t.calls

-- Where a schedule ends.
ended :
    (n : Notifier) (r : Registrar) (me : ℕ) (s : OperationCancellation)
    → Safe r n me s
    → IsCalled me (notifier_program n, registrar_program r, s)
unfolding is_done cancel_program notify_program call_listeners register_program
ended ready r me s h p q = cc
ended flagged r me s h p q = cc
ended (calling (id ∷ ids)) r me s h p q = cc
ended (calling []) outside me s h p q = cc
ended (calling []) (numbered id) me s h p q = cc
ended (calling []) (inserted id) me s h p q = cc
ended (calling []) (telling (id ∷ ids)) me s h p q = cc
ended (calling []) (telling []) me s (inl m) p q = absurd m
ended (calling []) (telling []) me s (inr (inl m)) p q = absurd m
ended (calling []) (telling []) me s (inr (inr m)) p q = m

interleave-IsCalled :
    (schedule : List Bool) (n : Notifier) (r : Registrar) (me : ℕ) (s : OperationCancellation)
    → Flagged n s
    → Safe r n me s
    → IsCalled me (interleave schedule (notifier_program n) (registrar_program r) s)
unfolding interleave cancel_program notify_program call_listeners register_program call_if_cancelled
    is_done
interleave-IsCalled [] n r me s f h = ended n r me s h
interleave-IsCalled (true ∷ rest) ready r me s f h =
    interleave-IsCalled rest flagged r me (with_flag s) f (flag_step r me s h)
interleave-IsCalled (true ∷ rest) flagged r me s f h =
    interleave-IsCalled rest (calling s.listeners) r me s f (collect_step r me s h)
interleave-IsCalled (true ∷ rest) (calling []) r me s f h =
    interleave-IsCalled rest (calling []) r me s f h
interleave-IsCalled (true ∷ rest) (calling (id ∷ ids)) r me s f h =
    interleave-IsCalled rest (calling ids) r me (with_call id s) (unfold is_cancelled in f)
      (call_step r me id ids s h)
interleave-IsCalled (false ∷ rest) n outside me s f h =
    interleave-IsCalled rest n (numbered s.next_listener_id) me (take_id s) (take_id_step n s f) h
interleave-IsCalled (false ∷ rest) n (numbered id) me s f h =
    let (g, k) = insert_step n id me s h f in
    interleave-IsCalled rest n (inserted id) me (insert_listener id s) g k
interleave-IsCalled (false ∷ rest) n (telling []) me s f h =
    interleave-IsCalled rest n (telling []) me s f h
interleave-IsCalled (false ∷ rest) n (telling (id ∷ ids)) me s f h =
    let (g, k) = tell_step n id me ids s f h in
    interleave-IsCalled rest n (telling ids) me (with_call id s) g k
interleave-IsCalled (false ∷ rest) n (inserted id) me s f (e, k) =
    elim (Bool-cases (is_cancelled s)) [
      | inl c ↦
          rw (c, call_if_cancelled)
            (interleave-IsCalled rest n (telling (id ∷ [])) me s f (inl (inl e)))
      | inr c ↦
          rw (c, call_if_cancelled)
            (interleave-IsCalled rest n (telling []) me s f (elim (test_step n me s f k) [
              | inl cancelled ↦ let q = sym c ∙ cancelled in cc
              | inr covered ↦ inr covered
            ]))
    ]

cancel-is_cancelled :
    (ops : List Op) → is_active (run ops new) ≡ true → is_cancelled (with_flag (run ops new)) ≡ true
cancel-is_cancelled ops h =
    let (b, e) = flags_of-run ops in
    let a = sym (is_active-flags_of (run ops new) b e) ∙ h in
    is_cancelled-flags_of (with_flag (run ops new)) (apply_status cancel_now b) (
      unfold apply cancel cancel_program notify_program run_program in
      sym (call_listeners-flags (run ops new).listeners (with_flag (run ops new)))
      ∙ apply-apply_status cancel_now (run ops new) b e)
    ∙ rw a refl

-- A thread that is not interrupted does what its program does alone.
first_alone :
    (p q : Program) (s : OperationCancellation)
    → (schedule : List Bool) × ((rest : List Bool)
        → interleave (schedule ++ rest) p q s ≡ interleave rest done q (run_program p s))
unfolding interleave run_program
first_alone done q s = ([], λ rest. refl)
first_alone (atomic change later) q s =
    let (schedule, h) = first_alone (later s) q (change s) in (true ∷ schedule, h)

second_alone :
    (p q : Program) (s : OperationCancellation)
    → (schedule : List Bool) × ((rest : List Bool)
        → interleave (schedule ++ rest) p q s ≡ interleave rest p done (run_program q s))
unfolding interleave run_program
second_alone p done s = ([], λ rest. refl)
second_alone p (atomic change later) s =
    let (schedule, h) = second_alone p (later s) (change s) in (false ∷ schedule, h)

-- The one program behind the other, with no step in between.
in_turn :
    (p q : Program) (s : OperationCancellation)
    → ((schedule : List Bool) × (interleave schedule p q s
          ≡ (done, done, run_program q (run_program p s))))
      × ((schedule : List Bool) × (interleave schedule p q s
            ≡ (done, done, run_program p (run_program q s))))
unfolding interleave
in_turn p q s =
    let (a, ha) = first_alone p q s in
    let (b, hb) = second_alone done q (run_program p s) in
    let (c, hc) = second_alone p q s in
    let (d, hd) = first_alone p done (run_program q s) in
    ((a ++ (b ++ []), ha (b ++ []) ∙ hb []), (c ++ (d ++ []), hc (d ++ []) ∙ hd []))

in_turn-IsCalled :
    (ops : List Op)
    → is_active (run ops new) ≡ true
    → Elem
        (register_cancel_listener (run ops new)).1
        (register_cancel_listener (cancel (run ops new))).0.calls
      × Elem
          (register_cancel_listener (run ops new)).1
          (cancel (register_cancel_listener (run ops new)).0).calls
unfolding register_cancel_listener cancel is_done
in_turn-IsCalled ops active =
    let s = run ops new in
    let ((a, cancel_first), (b, register_first)) = in_turn cancel_program register_program s in
    let called = λ (schedule : List Bool).
      interleave-IsCalled schedule ready outside s.next_listener_id s
        (cancel-is_cancelled ops active) refl in
    (
      subst (IsCalled s.next_listener_id) cancel_first (called a) refl refl,
      subst (IsCalled s.next_listener_id) register_first (called b) refl refl,
    )

-- Let an operation be active, and one thread call `cancel` while another registers a listener. Under
-- every schedule after which both have finished, the listener has been called, under the id that its
-- registration returns. It is also called if one of the two functions runs behind the other.
pub listener_called :
    (ops : List Op) (schedule : List Bool)
    → is_active (run ops new) ≡ true
    → is_done (interleave schedule cancel_program register_program (run ops new)).0 ≡ true
    → is_done (interleave schedule cancel_program register_program (run ops new)).1 ≡ true
    → Elem
        (register_cancel_listener (run ops new)).1
        (interleave schedule cancel_program register_program (run ops new)).2.calls
      × Elem
          (register_cancel_listener (run ops new)).1
          (register_cancel_listener (cancel (run ops new))).0.calls
      × Elem
          (register_cancel_listener (run ops new)).1
          (cancel (register_cancel_listener (run ops new)).0).calls
unfolding register_cancel_listener
listener_called ops schedule active p q =
    let (behind_cancel, before_cancel) = in_turn-IsCalled ops active in
    (
      interleave-IsCalled schedule ready outside (run ops new).next_listener_id (run ops new)
          (cancel-is_cancelled ops active) refl p q,
      behind_cancel,
      before_cancel,
    )
