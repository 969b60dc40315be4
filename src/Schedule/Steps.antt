-- ===== src/Schedule/Steps.antt =====
-- The scheduler under every interleaving of its methods: a step is one call under the mutex, and the
-- workers choose the calls. A duplicate is cancelled only while one runs, as `workerLoop` does.
use pget.Base.{
  ℕ, zero, suc, ◌≡◌, refl, sym, ap, ◌∙◌, subst, ◌⊎◌, inl, inr, ◌&&◌, ◌==◌, Bool, true, false, List,
  [], ◌∷◌, Option, none, some, arith, leb, if◌then◌else◌, length, Bool-cases,
}
use pget.Chunk.{Chunk, completed}
use pget.Schedule.State.{
  Scheduler, Config, new, skip_completed, count_state, is_active, is_completed,
}
use pget.Schedule.Assign.{next_assignment}
use pget.Schedule.Report.{
  mark_complete, mark_failed, on_pressure, on_admission_failure, on_worker_success, cancel,
}
use pget.Schedule.Hedge.{
  SlotSearch, found, no_slot, panics, hedge_at, hedge_chunk, unhedge_chunk, start_hedge, find_slot,
  cancel_hedge,
}
use pget.Schedule.Counts.{count_state-modify_same, PendingFrom, PendingFrom-modify_same}
use pget.Schedule.Invariant.{Inv, next_assignment-Inv}
use pget.Schedule.Preserve.{
  mark_complete-Inv, mark_failed-Inv, on_pressure-Inv, on_admission_failure-Inv,
  on_worker_success-Inv, cancel-Inv,
}

-- The numbers count the duplicates that run before and after.
pub data Step (s : Scheduler) (h : ℕ) : Scheduler → ℕ → Type 0 where
  assigns : (now slot : ℕ) → Step s h (next_assignment s now slot).0 h
  completes : (now idx : ℕ) → Step s h (mark_complete s now idx) h
  fails_chunk : (now idx : ℕ) (retryable : Bool) → Step s h (mark_failed s now idx retryable) h
  presses : (now retry_after : ℕ) → Step s h (on_pressure s now retry_after) h
  loses_slot : (now slot : ℕ) → Step s h (on_admission_failure s now slot) h
  succeeds : (now slot bytes d : ℕ) → Step s h (on_worker_success s now slot bytes d) h
  cancels : Step s h (cancel s) h
  hedges :
      (now idx slot : ℕ) (t : Scheduler)
      → start_hedge s now idx ≡ some (t, some slot)
      → Step s h t (suc h)
  declines : (now idx : ℕ) (t : Scheduler) → start_hedge s now idx ≡ some (t, none) → Step s h t h
  unhedges : (idx h' : ℕ) → h ≡ suc h' → Step s h (cancel_hedge s idx) h'

pub data Reach (s : Scheduler) : Scheduler → ℕ → Type 0 where
  here : Reach s s 0
  next : {t u : Scheduler} {h h' : ℕ} → Reach s t h → Step t h u h' → Reach s u h'

-- The state that a successful call holds.
abbrev pub state_of : Scheduler → Option (Scheduler × Option ℕ) → Scheduler
state_of s none = s
state_of s (some (t, o)) = t

abbrev slot_of : Option (Scheduler × Option ℕ) → Bool
slot_of none = false
slot_of (some (t, none)) = false
slot_of (some (t, some i)) = true

-- What `start_hedge` does to the invariant, on every outcome that is no panic.
hedge_at-Inv :
    (s : Scheduler) (idx h : ℕ) (search_result : SlotSearch)
    → Inv s h
    → Inv
        (state_of s (hedge_at s idx search_result))
        (if slot_of (hedge_at s idx search_result) then suc h else h)
hedge_at-Inv s idx h (found i) v =
    unfold hedge_at in
    record {
      completed_counted =
          v.completed_counted
          ∙ sym (count_state-modify_same is_completed s.chunks idx hedge_chunk (λ c. refl));
      active_counted = ground (
        arith,
        v.active_counted,
        count_state-modify_same is_active s.chunks idx hedge_chunk (λ c. refl),
      );
      untouched =
          PendingFrom-modify_same s.next_undispatched s.chunks idx hedge_chunk (λ c. refl)
            v.untouched;
      target_positive = v.target_positive;
    }
hedge_at-Inv s idx h no_slot v =
    unfold hedge_at in
    record {
      completed_counted =
          v.completed_counted
          ∙ sym (count_state-modify_same is_completed s.chunks idx unhedge_chunk (λ c. refl));
      active_counted = ground (
        arith,
        v.active_counted,
        count_state-modify_same is_active s.chunks idx unhedge_chunk (λ c. refl),
      );
      untouched =
          PendingFrom-modify_same s.next_undispatched s.chunks idx unhedge_chunk (λ c. refl)
            v.untouched;
      target_positive = v.target_positive;
    }
hedge_at-Inv s idx h panics v = unfold hedge_at in v

start_hedge-Inv :
    (s : Scheduler) (now idx h : ℕ)
    → Inv s h
    → Inv
        (state_of s (start_hedge s now idx))
        (if slot_of (start_hedge s now idx) then suc h else h)
unfolding start_hedge
start_hedge-Inv s now idx h v = elim (Bool-cases (leb (length s.chunks) idx)) [
  | inl e ↦ rw e v
  | inr e ↦ rw e (hedge_at-Inv s idx h (find_slot s.effective_target 0 s now) v)
]

cancel_hedge-Inv : (s : Scheduler) (idx h : ℕ) → Inv s (suc h) → Inv (cancel_hedge s idx) h
unfolding cancel_hedge
cancel_hedge-Inv s idx h v = ground arith

Step-Inv : {s t : Scheduler} {h h' : ℕ} → Step s h t h' → Inv s h → Inv t h'
Step-Inv {s} {h = h} (assigns now slot) v = next_assignment-Inv s now slot h v
Step-Inv {s} {h = h} (completes now idx) v = mark_complete-Inv s now idx h v
Step-Inv {s} {h = h} (fails_chunk now idx retryable) v = mark_failed-Inv s now idx h retryable v
Step-Inv {s} {h = h} (presses now retry_after) v = on_pressure-Inv s now retry_after h v
Step-Inv {s} {h = h} (loses_slot now slot) v = on_admission_failure-Inv s now slot h v
Step-Inv {s} {h = h} (succeeds now slot bytes d) v = on_worker_success-Inv s now slot bytes d h v
Step-Inv {s} {h = h} cancels v = cancel-Inv s h v
Step-Inv {s} {h = h} (hedges now idx slot t e) v = rw e at (start_hedge-Inv s now idx h v)
Step-Inv {s} {h = h} (declines now idx t e) v = rw e at (start_hedge-Inv s now idx h v)
Step-Inv {s} {h = h} (unhedges idx h' e) v = cancel_hedge-Inv s idx h' (rw e at v)

-- Completed chunks in front, and only pending ones behind.
abbrev pub IsContiguous : List Chunk → Type 0
IsContiguous [] = Unit {0}
IsContiguous (c ∷ cs) = ((c.state ≡ completed) × IsContiguous cs) ⊎ PendingFrom zero (c ∷ cs)

PendingFrom-idle : (cs : List Chunk) → PendingFrom zero cs → count_state is_active cs ≡ 0
PendingFrom-idle [] h = refl
PendingFrom-idle (c ∷ cs) h = ground (arith, PendingFrom-idle cs h.1)

IsContiguous-idle : (cs : List Chunk) → IsContiguous cs → count_state is_active cs ≡ 0
IsContiguous-idle [] h = refl
IsContiguous-idle (c ∷ cs) (inl (e, h)) = ground (arith, e, IsContiguous-idle cs h)
IsContiguous-idle (c ∷ cs) (inr h) = PendingFrom-idle (c ∷ cs) h

IsContiguous-skip : (cs : List Chunk) → IsContiguous cs → PendingFrom (skip_completed cs) cs
unfolding skip_completed
IsContiguous-skip [] h = tt
IsContiguous-skip (c ∷ cs) (inl (e, h)) = rw e (IsContiguous-skip cs h)
IsContiguous-skip (c ∷ cs) (inr h) = rw h.0 (refl, h.1)

abbrev or_else : Scheduler → Option Scheduler → Scheduler
or_else d none = d
or_else d (some s) = s

pub new-Inv :
    (cfg : Config) (cs : List Chunk) (has_sink : Bool) (s : Scheduler)
    → IsContiguous cs
    → new cfg cs has_sink ≡ some s
    → Inv s 0
unfolding new
new-Inv cfg cs has_sink s h e =
    elim (Bool-cases (cfg.stream_mode && has_sink && cfg.split_size == 0)) [
      | inl p ↦ absurd (ground (arith, e))
      | inr p ↦
          subst (λ q. Inv q 0) (ap (or_else s) (rw p at e))
            (record {
              completed_counted = refl;
              active_counted = ground (arith, IsContiguous-idle cs h);
              untouched = IsContiguous-skip cs h;
              target_positive = ground arith;
            })
    ]

pub Reach-Inv : {s t : Scheduler} {h : ℕ} → Reach s t h → Inv s 0 → Inv t h
Reach-Inv here v = v
Reach-Inv (next r st) v = Step-Inv st (Reach-Inv r v)
