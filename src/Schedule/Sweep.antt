-- ===== src/Schedule/Sweep.antt =====
-- Every call of the scheduler keeps the chunks in front of the mark out of the pending state.
use pget.Base.{
  ℕ, ◌≡◌, refl, sym, subst, inl, inr, Bool, Option, none, some, arith, leb, ltb, length, get_elem?,
  Bool-cases,
}
use pget.Base.Int.{at_least}
use pget.Chunk.{Chunk}
use pget.Schedule.State.{Scheduler, Exhausted}
use pget.Schedule.Assign.{
  next_assignment, check_fatal, offer, cleanup, try_assign, assign_next, assign_chunk,
  start_attempt, slot_suppressed, find_retryable_chunk,
}
use pget.Schedule.Assignment.{cleanup-chunks}
use pget.Schedule.Report.{
  mark_complete, complete_found, complete_active, set_completed, mark_failed, fail_found,
  fail_active, on_pressure, on_admission_failure, on_worker_success, cancel,
}
use pget.Schedule.Hedge.{
  SlotSearch, found, no_slot, panics, hedge_at, start_hedge, find_slot, cancel_hedge,
}
use pget.Schedule.Steps.{
  Step, assigns, completes, fails_chunk, presses, loses_slot, succeeds, cancels, hedges, declines,
  unhedges, Reach, here, next, state_of,
}
use pget.Schedule.Evolve.{
  mark_failed-Evolves, on_admission_failure-chunks, start_hedge-Evolves, cancel_hedge-chunks,
  mark_complete-chunks,
}
use pget.Schedule.Dispatched.{
  Dispatched-modify, Dispatched-next, IsSwept, keeps-IsSwept, same-IsSwept,
}

offer-state : (r : Scheduler × Option ℕ) → (offer r).0 ≡ r.0
unfolding offer
offer-state (s, none) = refl
offer-state (s, some i) = refl

-- What holds before a call of tryAssign and behind every assignment holds behind it.
try_assign-elim :
    (P : Scheduler → Type 0) (s : Scheduler) (now slot : ℕ)
    → P s
    → P (assign_next s now slot (find_retryable_chunk now s.chunks)).0
    → P (try_assign s now slot).0
try_assign-elim P s now slot h k =
    elim (Bool-cases (slot_suppressed now (get_elem? s.workers slot))) [
      | inl e ↦ unfold try_assign in rw e h
      | inr e ↦ elim (Bool-cases (at_least s.active_count s.effective_target)) [
        | inl full ↦ unfold try_assign in rw (e, full) h
        | inr room ↦ unfold try_assign in rw (e, room) k
      ]
    ]

check_fatal-elim :
    (P : Scheduler → Type 0) (s : Scheduler) (now slot : ℕ) (e : Option Exhausted)
    → P s
    → P (assign_next s now slot (find_retryable_chunk now s.chunks)).0
    → P (check_fatal s now slot e).0
check_fatal-elim P s now slot (some e) h k = unfold check_fatal in h
check_fatal-elim P s now slot none h k =
    elim (Bool-cases (leb (length s.chunks) s.completed_count)) [
      | inl e ↦ unfold check_fatal in rw e h
      | inr e ↦
          unfold check_fatal in
          rw e
            (subst P (sym (offer-state (try_assign s now slot))) (try_assign-elim P s now slot h k))
    ]

pub next_assignment-elim :
    (P : Scheduler → Type 0) (s : Scheduler) (now slot : ℕ)
    → P (cleanup s now)
    → P (assign_next (cleanup s now) now slot (find_retryable_chunk now (cleanup s now).chunks)).0
    → P (next_assignment s now slot).0
next_assignment-elim P s now slot h k = elim (Bool-cases (cleanup s now).cancelled) [
  | inl off ↦ unfold next_assignment in rw off h
  | inr on ↦
      unfold next_assignment in
      rw on (check_fatal-elim P (cleanup s now) now slot (cleanup s now).fatal_err h k)
]

assign_next-IsSwept :
    (s : Scheduler) (now slot : ℕ) (o : Option ℕ) → IsSwept s → IsSwept (assign_next s now slot o).0
assign_next-IsSwept s now slot (some i) h =
    unfold assign_next assign_chunk in
    Dispatched-modify (start_attempt now slot) (λ c. unfold start_attempt in refl)
      s.next_undispatched s.chunks i h
assign_next-IsSwept s now slot none h =
    elim (Bool-cases (ltb s.next_undispatched (length s.chunks))) [
      | inl e ↦
          unfold assign_next assign_chunk in
          rw e (
            Dispatched-next (start_attempt now slot) (λ c. unfold start_attempt in refl)
              s.next_undispatched s.chunks h)
      | inr e ↦ unfold assign_next in rw e h
    ]

pub cleanup-mark :
    (s : Scheduler) (now : ℕ) → (cleanup s now).next_undispatched ≡ s.next_undispatched
unfolding cleanup
cleanup-mark s now = ground arith

next_assignment-IsSwept :
    (s : Scheduler) (now slot : ℕ) → IsSwept s → IsSwept (next_assignment s now slot).0
next_assignment-IsSwept s now slot h =
    let u : IsSwept (cleanup s now) =
      same-IsSwept s (cleanup s now) (cleanup-mark s now) (cleanup-chunks s now) h in
    next_assignment-elim IsSwept s now slot u (assign_next-IsSwept (cleanup s now) now slot _ u)

complete_found-mark :
    (s : Scheduler) (now i : ℕ) (o : Option Chunk)
    → (complete_found s now i o).next_undispatched ≡ s.next_undispatched
unfolding complete_found complete_active
complete_found-mark s now i none = refl
complete_found-mark s now i (some c) = ground arith

mark_complete-IsSwept : (s : Scheduler) (now i : ℕ) → IsSwept s → IsSwept (mark_complete s now i)
mark_complete-IsSwept s now i h =
    let mark : (mark_complete s now i).next_undispatched ≡ s.next_undispatched =
      unfold mark_complete in complete_found-mark s now i (get_elem? s.chunks i) in
    elim (mark_complete-chunks s now i) [
      | inl same ↦ same-IsSwept s (mark_complete s now i) mark same h
      | inr set ↦
          rw (mark, set)
            (Dispatched-modify set_completed (λ c. unfold set_completed in refl) s.next_undispatched
              s.chunks i h)
    ]

fail_found-mark :
    (s : Scheduler) (now i : ℕ) (retryable : Bool) (o : Option Chunk)
    → (fail_found s now i retryable o).next_undispatched ≡ s.next_undispatched
unfolding fail_found fail_active
fail_found-mark s now i retryable none = refl
fail_found-mark s now i retryable (some c) = ground arith

mark_failed-mark :
    (s : Scheduler) (now i : ℕ) (retryable : Bool)
    → (mark_failed s now i retryable).next_undispatched ≡ s.next_undispatched
unfolding mark_failed
mark_failed-mark s now i retryable = fail_found-mark s now i retryable (get_elem? s.chunks i)

on_admission_failure-mark :
    (s : Scheduler) (now slot : ℕ)
    → (on_admission_failure s now slot).next_undispatched ≡ s.next_undispatched
unfolding on_admission_failure
on_admission_failure-mark s now slot = ground arith

on_pressure-same :
    (s : Scheduler) (now r : ℕ)
    → ((on_pressure s now r).next_undispatched ≡ s.next_undispatched)
      × ((on_pressure s now r).chunks ≡ s.chunks)
unfolding on_pressure
on_pressure-same s now r = ground arith

hedge_at-mark :
    (s : Scheduler) (i : ℕ) (r : SlotSearch)
    → (state_of s (hedge_at s i r)).next_undispatched ≡ s.next_undispatched
unfolding hedge_at
hedge_at-mark s i (found k) = refl
hedge_at-mark s i no_slot = refl
hedge_at-mark s i panics = refl

start_hedge-mark :
    (s : Scheduler) (now i : ℕ)
    → (state_of s (start_hedge s now i)).next_undispatched ≡ s.next_undispatched
start_hedge-mark s now i = elim (Bool-cases (leb (length s.chunks) i)) [
  | inl e ↦ unfold start_hedge in rw e refl
  | inr e ↦ unfold start_hedge in rw e (hedge_at-mark s i (find_slot s.effective_target 0 s now))
]

start_hedge-IsSwept :
    (s : Scheduler) (now i : ℕ) → IsSwept s → IsSwept (state_of s (start_hedge s now i))
start_hedge-IsSwept s now i h =
    keeps-IsSwept s (state_of s (start_hedge s now i)) (start_hedge-mark s now i)
      (start_hedge-Evolves s now i) h

cancel_hedge-mark :
    (s : Scheduler) (i : ℕ) → (cancel_hedge s i).next_undispatched ≡ s.next_undispatched
unfolding cancel_hedge
cancel_hedge-mark s i = ground arith

Step-IsSwept : {s t : Scheduler} {h h' : ℕ} → Step s h t h' → IsSwept s → IsSwept t
unfolding on_worker_success cancel
Step-IsSwept {s} (assigns now slot) v = next_assignment-IsSwept s now slot v
Step-IsSwept {s} (completes now i) v = mark_complete-IsSwept s now i v
Step-IsSwept {s} (fails_chunk now i retryable) v =
    keeps-IsSwept s (mark_failed s now i retryable) (mark_failed-mark s now i retryable)
      (mark_failed-Evolves s now i retryable) v
Step-IsSwept {s} (presses now r) v =
    let (mark, chunks) = on_pressure-same s now r in
    same-IsSwept s (on_pressure s now r) mark chunks v
Step-IsSwept {s} (loses_slot now slot) v =
    same-IsSwept s (on_admission_failure s now slot) (on_admission_failure-mark s now slot)
      (on_admission_failure-chunks s now slot) v
Step-IsSwept {s} (succeeds now slot bytes d) v = v
Step-IsSwept {s} cancels v = v
Step-IsSwept {s} (hedges now i slot t e) v = rw e at (start_hedge-IsSwept s now i v)
Step-IsSwept {s} (declines now i t e) v = rw e at (start_hedge-IsSwept s now i v)
Step-IsSwept {s} (unhedges i h' e) v =
    same-IsSwept s (cancel_hedge s i) (cancel_hedge-mark s i) (cancel_hedge-chunks s i) v

pub Reach-IsSwept : {s t : Scheduler} {h : ℕ} → Reach s t h → IsSwept s → IsSwept t
Reach-IsSwept here v = v
Reach-IsSwept (next r st) v = Step-IsSwept st (Reach-IsSwept r v)
