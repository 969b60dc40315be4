-- ===== src/Schedule/Masked.antt =====
-- internal/schedule/scheduler.go: what a worker is told after a chunk has run out of attempts.
use pget.Base.{
  ℕ, ◌≡◌, ◌≢◌, ◌∙◌, refl, sym, subst, ◌⊎◌, inl, inr, ◌&&◌, Bool, true, List, Option, none, some,
  arith, leb, ltb, ◌==◌, length, get_elem?, Bool-cases,
}
use pget.Base.Int.{at_least}
use pget.Chunk.{Chunk}
use pget.Schedule.State.{Scheduler, Config, Exhausted, new, is_active}
use pget.Schedule.Assign.{
  fails, next_assignment, check_fatal, offer, cleanup, try_assign, assign_next, slot_suppressed,
  find_retryable_chunk,
}
use pget.Schedule.Report.{
  mark_complete, complete_found, complete_active, mark_failed, fail_found, on_pressure,
  on_admission_failure, admission_failed, on_worker_success, cancel,
}
use pget.Schedule.Hedge.{
  SlotSearch, found, no_slot, panics, hedge_at, start_hedge, find_slot, cancel_hedge,
}
use pget.Schedule.Steps.{
  Step, assigns, completes, fails_chunk, presses, loses_slot, succeeds, cancels, hedges, declines,
  unhedges, Reach, here, next, state_of,
}

-- An error of the scheduler comes with its cancellation.
abbrev IsSilenced : Scheduler → Type 0
IsSilenced s = (s.fatal_err ≡ none) ⊎ (s.cancelled ≡ true)

-- What most operations leave alone.
abbrev SameEnd : Scheduler → Scheduler → Type 0
SameEnd s t = (t.fatal_err ≡ s.fatal_err) × (t.cancelled ≡ s.cancelled)

SameEnd-IsSilenced : (s t : Scheduler) → SameEnd s t → IsSilenced s → IsSilenced t
SameEnd-IsSilenced s t (e, c) (inl h) = inl (e ∙ h)
SameEnd-IsSilenced s t (e, c) (inr h) = inr (c ∙ h)

cleanup-SameEnd : (s : Scheduler) (now : ℕ) → SameEnd s (cleanup s now)
unfolding cleanup
cleanup-SameEnd s now = ground arith

assign_next-SameEnd :
    (s : Scheduler) (now slot : ℕ) (o : Option ℕ) → SameEnd s (assign_next s now slot o).0
assign_next-SameEnd s now slot (some i) = unfold assign_next in (refl, refl)
assign_next-SameEnd s now slot none =
    elim (Bool-cases (ltb s.next_undispatched (length s.chunks))) [
      | inl e ↦ unfold assign_next in rw e (refl, refl)
      | inr e ↦ unfold assign_next in rw e (refl, refl)
    ]

try_assign-SameEnd : (s : Scheduler) (now slot : ℕ) → SameEnd s (try_assign s now slot).0
try_assign-SameEnd s now slot = elim (Bool-cases (slot_suppressed now (get_elem? s.workers slot))) [
  | inl e ↦ unfold try_assign in rw e (refl, refl)
  | inr e ↦ elim (Bool-cases (at_least s.active_count s.effective_target)) [
    | inl full ↦ unfold try_assign in rw (e, full) (refl, refl)
    | inr room ↦
        unfold try_assign in
        rw (e, room) (assign_next-SameEnd s now slot (find_retryable_chunk now s.chunks))
  ]
]

offer-SameEnd : (s : Scheduler) (r : Scheduler × Option ℕ) → SameEnd s r.0 → SameEnd s (offer r).0
unfolding offer
offer-SameEnd s (t, none) h = h
offer-SameEnd s (t, some i) h = h

check_fatal-SameEnd :
    (s : Scheduler) (now slot : ℕ) (e : Option Exhausted) → SameEnd s (check_fatal s now slot e).0
check_fatal-SameEnd s now slot (some e) = unfold check_fatal in (refl, refl)
check_fatal-SameEnd s now slot none = elim (Bool-cases (leb (length s.chunks) s.completed_count)) [
  | inl e ↦ unfold check_fatal in rw e (refl, refl)
  | inr e ↦
      unfold check_fatal in
      rw e (offer-SameEnd s (try_assign s now slot) (try_assign-SameEnd s now slot))
]

next_assignment-SameEnd : (s : Scheduler) (now slot : ℕ) → SameEnd s (next_assignment s now slot).0
unfolding next_assignment
next_assignment-SameEnd s now slot =
    let (e, c) = cleanup-SameEnd s now in
    elim (Bool-cases (cleanup s now).cancelled) [
      | inl off ↦ rw off (e, off ∙ sym off ∙ c)
      | inr on ↦
          let (e', c') = check_fatal-SameEnd (cleanup s now) now slot (cleanup s now).fatal_err in
          rw on (e' ∙ e, c' ∙ c)
    ]

complete_found-SameEnd :
    (s : Scheduler) (now i : ℕ) (o : Option Chunk) → SameEnd s (complete_found s now i o)
unfolding complete_found complete_active
complete_found-SameEnd s now i none = (refl, refl)
complete_found-SameEnd s now i (some c) = ground arith

-- The only place that sets the error cancels.
fail_found-IsSilenced :
    (s : Scheduler) (now i : ℕ) (retryable : Bool) (o : Option Chunk)
    → IsSilenced s
    → IsSilenced (fail_found s now i retryable o)
fail_found-IsSilenced s now i retryable none h = unfold fail_found in h
fail_found-IsSilenced s now i retryable (some c) h = elim (Bool-cases (is_active c.state)) [
  | inl a ↦ elim (Bool-cases (retryable && ltb c.attempts s.cfg.max_tries)) [
    | inl again ↦ unfold fail_found in simp (a, again) h
    | inr out ↦ unfold fail_found in simp (a, out) (inr refl)
  ]
  | inr a ↦ unfold fail_found in rw a h
]

admission_failed-SameEnd :
    (s : Scheduler) (now slot : ℕ) (o : Option _) → SameEnd s (admission_failed s now slot o)
unfolding admission_failed
admission_failed-SameEnd s now slot none = (refl, refl)
admission_failed-SameEnd s now slot (some w) = ground arith

hedge_at-SameEnd :
    (s : Scheduler) (i : ℕ) (r : SlotSearch) → SameEnd s (state_of s (hedge_at s i r))
unfolding hedge_at
hedge_at-SameEnd s i (found k) = (refl, refl)
hedge_at-SameEnd s i no_slot = (refl, refl)
hedge_at-SameEnd s i panics = (refl, refl)

start_hedge-SameEnd : (s : Scheduler) (now i : ℕ) → SameEnd s (state_of s (start_hedge s now i))
start_hedge-SameEnd s now i = elim (Bool-cases (leb (length s.chunks) i)) [
  | inl e ↦ unfold start_hedge in rw e (refl, refl)
  | inr e ↦ unfold start_hedge in rw e (hedge_at-SameEnd s i (find_slot s.effective_target 0 s now))
]

on_pressure-SameEnd : (s : Scheduler) (now r : ℕ) → SameEnd s (on_pressure s now r)
unfolding on_pressure
on_pressure-SameEnd s now r = ground arith

cancel_hedge-SameEnd : (s : Scheduler) (i : ℕ) → SameEnd s (cancel_hedge s i)
unfolding cancel_hedge
cancel_hedge-SameEnd s i = ground arith

Step-IsSilenced : {s t : Scheduler} {h h' : ℕ} → Step s h t h' → IsSilenced s → IsSilenced t
unfolding mark_complete mark_failed on_admission_failure on_worker_success cancel
Step-IsSilenced {s} (assigns now slot) v =
    SameEnd-IsSilenced s (next_assignment s now slot).0 (next_assignment-SameEnd s now slot) v
Step-IsSilenced {s} (completes now i) v =
    SameEnd-IsSilenced s (complete_found s now i (get_elem? s.chunks i))
      (complete_found-SameEnd s now i (get_elem? s.chunks i)) v
Step-IsSilenced {s} (fails_chunk now i retryable) v =
    fail_found-IsSilenced s now i retryable (get_elem? s.chunks i) v
Step-IsSilenced {s} (presses now r) v =
    SameEnd-IsSilenced s (on_pressure s now r) (on_pressure-SameEnd s now r) v
Step-IsSilenced {s} (loses_slot now slot) v =
    SameEnd-IsSilenced s (admission_failed s now slot (get_elem? s.workers slot))
      (admission_failed-SameEnd s now slot (get_elem? s.workers slot)) v
Step-IsSilenced {s} (succeeds now slot bytes d) v = v
Step-IsSilenced {s} cancels v = inr refl
Step-IsSilenced {s} (hedges now i slot t e) v =
    rw e at
      (SameEnd-IsSilenced s (state_of s (start_hedge s now i)) (start_hedge-SameEnd s now i) v)
Step-IsSilenced {s} (declines now i t e) v =
    rw e at
      (SameEnd-IsSilenced s (state_of s (start_hedge s now i)) (start_hedge-SameEnd s now i) v)
Step-IsSilenced {s} (unhedges i h' e) v =
    SameEnd-IsSilenced s (cancel_hedge s i) (cancel_hedge-SameEnd s i) v

Reach-IsSilenced : {s t : Scheduler} {h : ℕ} → Reach s t h → IsSilenced s → IsSilenced t
Reach-IsSilenced here v = v
Reach-IsSilenced (next r st) v = Step-IsSilenced st (Reach-IsSilenced r v)

abbrev IsClean : Option Scheduler → Type 0
IsClean none = Unit {0}
IsClean (some s) = IsSilenced s

new-IsSilenced :
    (cfg : Config) (cs : List Chunk) (has_sink : Bool) (s : Scheduler)
    → new cfg cs has_sink ≡ some s
    → IsSilenced s
new-IsSilenced cfg cs has_sink s e =
    let h : IsClean (new cfg cs has_sink) =
      elim (Bool-cases (cfg.stream_mode && has_sink && cfg.split_size == 0)) [
        | inl p ↦ unfold new in rw p tt
        | inr p ↦ unfold new in rw p (inl refl)
      ] in
    subst IsClean e h

offer-ne-fails : (r : Scheduler × Option ℕ) (e : Exhausted) → (offer r).1 ≢ fails e
unfolding offer
offer-ne-fails (s, none) e h = absurd (ground (arith, h))
offer-ne-fails (s, some i) e h = absurd (ground (arith, h))

-- In whatever order the scheduler is called since it was made, NextAssignment never returns the error
-- that names the chunk whose attempts have run out: the place that stores it also cancels, and the
-- cancellation is what is reported.
pub exhaustion_never_reported :
    (cfg : Config) (cs : List Chunk) (has_sink : Bool) (s t : Scheduler) (h now slot : ℕ)
    (e : Exhausted)
    → new cfg cs has_sink ≡ some s
    → Reach s t h
    → (next_assignment t now slot).1 ≢ fails e
exhaustion_never_reported cfg cs has_sink s t h now slot e made r q =
    let silenced =
      SameEnd-IsSilenced t (cleanup t now) (cleanup-SameEnd t now)
        (Reach-IsSilenced r (new-IsSilenced cfg cs has_sink s made)) in
    elim (Bool-cases (cleanup t now).cancelled) [
      | inl off ↦ absurd (unfold next_assignment in ground (arith, off, q))
      | inr on ↦ elim silenced [
        | inr off ↦ absurd (ground (arith, on, off))
        | inl none_yet ↦
            elim (Bool-cases
              (leb (length (cleanup t now).chunks) (cleanup t now).completed_count)) [
                | inl all ↦
                    absurd
                      (unfold next_assignment check_fatal in ground (arith, on, none_yet, all, q))
                | inr more ↦
                    offer-ne-fails (try_assign (cleanup t now) now slot) e
                      (unfold next_assignment check_fatal in (rw (on, none_yet, more) at q))
              ]
      ]
    ]
