-- ===== src/Schedule/Preserve.antt =====
-- The reports of the workers and the hedge keep the scheduler's invariant.
use pget.Base.{
  ℕ, ◌+◌, ◌<◌, ◌≡◌, refl, inl, inr, Bool, true, false, ◌&&◌, Option, none, some, arith, ltb,
  get_elem?, modify, Bool-cases, ltb→lt,
}
use pget.Base.Int.{pos, decrement}
use pget.Chunk.{Chunk, State, active}
use pget.Schedule.State.{Scheduler, count_state, is_active, is_completed}
use pget.Schedule.Report.{
  mark_complete, complete_found, complete_active, set_completed, mark_failed, fail_found,
  fail_active, set_retry, set_failed, on_pressure, halved, on_admission_failure, on_worker_success,
  cancel,
}
use pget.Schedule.Counts.{count_state-modify, PendingFrom, PendingFrom-get, PendingFrom-modify}
use pget.Schedule.Invariant.{Inv}

is_active-eq : (s : State) → is_active s ≡ true → s ≡ active
is_active-eq s h = ground arith

-- A chunk that is not pending stands before the mark.
touched :
    (s : Scheduler) (hedges i : ℕ) (c : Chunk)
    → Inv s hedges
    → get_elem? s.chunks i ≡ some c
    → is_active c.state ≡ true
    → i < s.next_undispatched
touched s hedges i c v e a = elim (Bool-cases (ltb i s.next_undispatched)) [
  | inl before ↦ ltb→lt _ _ before
  | inr after ↦ absurd (
      ground (arith, PendingFrom-get s.next_undispatched s.chunks i c v.untouched (ground arith) e))
]

module _ (s : Scheduler) (hedges idx : ℕ) (c : Chunk) (v : Inv s hedges)
    (at : get_elem? s.chunks idx ≡ some c) (running : is_active c.state ≡ true) where
  -- The active chunk leaves for another state.
  leave-untouched : (f : Chunk → Chunk) → PendingFrom s.next_undispatched (modify s.chunks idx f)
  leave-untouched f =
      PendingFrom-modify s.next_undispatched s.chunks idx f v.untouched
        (touched s hedges idx c v at running)

  leave-active :
      (f : Chunk → Chunk)
      → is_active (f c).state ≡ false
      → decrement s.active_count ≡ pos (count_state is_active (modify s.chunks idx f) + hedges)
  leave-active f h =
      ground (arith, v.active_counted, count_state-modify is_active s.chunks idx f c at)

  complete_active-Inv : (now : ℕ) → Inv (complete_active s now idx c) hedges
  unfolding complete_active
  complete_active-Inv now =
      let completed_step = count_state-modify is_completed s.chunks idx set_completed c at in
      let counted = leave-active set_completed refl in
      let kept = leave-untouched set_completed in
      elim (Bool-cases (ltb c.start_time now)) [
        | inl e ↦ rw e (record {
          completed_counted = ground (arith, completed_step, v.completed_counted, running);
          active_counted = counted;
          untouched = kept;
          target_positive = v.target_positive;
        })
        | inr e ↦ rw e (record {
          completed_counted = ground (arith, completed_step, v.completed_counted, running);
          active_counted = counted;
          untouched = kept;
          target_positive = v.target_positive;
        })
      ]

  fail_active-Inv : (now : ℕ) (retryable : Bool) → Inv (fail_active s now idx retryable c) hedges
  unfolding fail_active
  fail_active-Inv now retryable = elim (Bool-cases (retryable && ltb c.attempts s.cfg.max_tries)) [
    | inl e ↦ rw e (record {
      completed_counted = ground (
        arith,
        count_state-modify is_completed s.chunks idx (set_retry now) c at,
        v.completed_counted,
        running,
      );
      active_counted = leave-active (set_retry now) refl;
      untouched = leave-untouched (set_retry now);
      target_positive = v.target_positive;
    })
    | inr e ↦ rw e (record {
      completed_counted = ground (
        arith,
        count_state-modify is_completed s.chunks idx set_failed c at,
        v.completed_counted,
        running,
      );
      active_counted = leave-active set_failed refl;
      untouched = leave-untouched set_failed;
      target_positive = v.target_positive;
    })
  ]

complete_found-Inv :
    (s : Scheduler) (now idx hedges : ℕ) (o : Option Chunk)
    → get_elem? s.chunks idx ≡ o
    → Inv s hedges
    → Inv (complete_found s now idx o) hedges
complete_found-Inv s now idx hedges none e v = unfold complete_found in v
complete_found-Inv s now idx hedges (some c) e v = elim (Bool-cases (is_active c.state)) [
  | inl a ↦ unfold complete_found in rw a (complete_active-Inv s hedges idx c v e a now)
  | inr a ↦ unfold complete_found in rw a v
]

pub mark_complete-Inv :
    (s : Scheduler) (now idx hedges : ℕ) → Inv s hedges → Inv (mark_complete s now idx) hedges
unfolding mark_complete
mark_complete-Inv s now idx hedges v = complete_found-Inv s now idx hedges _ refl v

fail_found-Inv :
    (s : Scheduler) (now idx hedges : ℕ) (retryable : Bool) (o : Option Chunk)
    → get_elem? s.chunks idx ≡ o
    → Inv s hedges
    → Inv (fail_found s now idx retryable o) hedges
fail_found-Inv s now idx hedges retryable none e v = unfold fail_found in v
fail_found-Inv s now idx hedges retryable (some c) e v = elim (Bool-cases (is_active c.state)) [
  | inl a ↦ unfold fail_found in rw a (fail_active-Inv s hedges idx c v e a now retryable)
  | inr a ↦ unfold fail_found in rw a v
]

pub mark_failed-Inv :
    (s : Scheduler) (now idx hedges : ℕ) (retryable : Bool)
    → Inv s hedges
    → Inv (mark_failed s now idx retryable) hedges
unfolding mark_failed
mark_failed-Inv s now idx hedges retryable v = fail_found-Inv s now idx hedges retryable _ refl v

pub on_pressure-Inv :
    (s : Scheduler) (now retry_after hedges : ℕ)
    → Inv s hedges
    → Inv (on_pressure s now retry_after) hedges
unfolding on_pressure
on_pressure-Inv s now retry_after hedges v =
    elim (Bool-cases (ltb (halved s.effective_target) s.effective_target)) [
      | inl e ↦ rw e (record {
        completed_counted = v.completed_counted;
        active_counted = v.active_counted;
        untouched = v.untouched;
        target_positive = ground arith;
      })
      | inr e ↦ rw e v
    ]

pub on_admission_failure-Inv :
    (s : Scheduler) (now slot hedges : ℕ)
    → Inv s hedges
    → Inv (on_admission_failure s now slot) hedges
unfolding on_admission_failure
on_admission_failure-Inv s now slot hedges v = ground arith

pub on_worker_success-Inv :
    (s : Scheduler) (now slot bytes d hedges : ℕ)
    → Inv s hedges
    → Inv (on_worker_success s now slot bytes d) hedges
unfolding on_worker_success
on_worker_success-Inv s now slot bytes d hedges v = record {
  completed_counted = v.completed_counted;
  active_counted = v.active_counted;
  untouched = v.untouched;
  target_positive = v.target_positive;
}

pub cancel-Inv : (s : Scheduler) (hedges : ℕ) → Inv s hedges → Inv (cancel s) hedges
unfolding cancel
cancel-Inv s hedges v = record {
  completed_counted = v.completed_counted;
  active_counted = v.active_counted;
  untouched = v.untouched;
  target_positive = v.target_positive;
}
