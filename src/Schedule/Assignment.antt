-- ===== src/Schedule/Assignment.antt =====
-- What a call of `NextAssignment` may answer.
use pget.Base.{
  ℕ, suc, ◌+◌, ◌≤◌, ◌<◌, ◌≡◌, refl, subst, ◌≢◌, ◌⊎◌, inl, inr, Bool, true, false, List, Option,
  none, some, arith, leb, ltb, length, get_elem?, Bool-cases, Option-cases, get_elem?-some,
  get_elem?-modify_self, get_elem?-modify_ne, leb→le, ltb→lt,
}
use pget.Base.Int.{pos, at_least}
use pget.Chunk.{Chunk, pending, active, retry_wait}
use pget.Schedule.State.{Scheduler, Config, Exhausted, new, is_active, count_state}
use pget.Schedule.Assign.{
  Round, finished, assigned, stopped, fails, waits, next_assignment, check_fatal, offer, cleanup,
  try_assign, assign_next, assign_chunk, start_attempt, slot_suppressed, find_retryable_chunk,
}
use pget.Schedule.Counts.{PendingFrom-get, AllCompleted, AllCompleted-of_count}
use pget.Schedule.Invariant.{Inv, find_retryable_waits, cleanup-Inv}
use pget.Schedule.Steps.{Reach, IsContiguous, new-Inv, Reach-Inv}

-- The change from the chunk table `cs` to the state `t` that hands out chunk `i`: it was pending or
-- waiting for its retry and is active now, with one more attempt and the same range, every other
-- chunk is as it was, and the running transfers are at most as many as the target.
pub record Hands (cs : List Chunk) (i : ℕ) (t : Scheduler) : Type 0 where
  pub before : Chunk
  pub after : Chunk
  pub at_before : get_elem? cs i ≡ some before
  pub idle : (before.state ≡ pending) ⊎ (before.state ≡ retry_wait)
  pub at_after : get_elem? t.chunks i ≡ some after
  pub runs : after.state ≡ active
  pub attempted : after.attempts ≡ suc before.attempts
  pub same_range : (after.start ≡ before.start) × (after.length ≡ before.length)
  pub others : (j : ℕ) → i ≢ j → get_elem? t.chunks j ≡ get_elem? cs j
  pub running : ℕ
  pub running_counted : t.active_count ≡ pos running
  pub within_target : running ≤ t.effective_target

-- What each answer means, for a call with the chunk table `cs`.
abbrev pub Answers : List Chunk → Scheduler × Round → Type 0
Answers cs (t, stopped) = (t.cancelled ≡ true) × (t.chunks ≡ cs)
Answers cs (t, fails e) = (t.fatal_err ≡ some e) × (t.chunks ≡ cs)
Answers cs (t, finished) = AllCompleted cs × (t.chunks ≡ cs)
Answers cs (t, assigned i) = Hands cs i t
Answers cs (t, waits) = (t.completed_count < length cs) × (t.chunks ≡ cs)

assign_chunk-Hands :
    (s : Scheduler) (now slot h i mark : ℕ) (c : Chunk)
    → Inv s h
    → at_least s.active_count s.effective_target ≡ false
    → get_elem? s.chunks i ≡ some c
    → (c.state ≡ pending) ⊎ (c.state ≡ retry_wait)
    → Hands s.chunks i (assign_chunk (record s { next_undispatched = mark }) now i slot)
unfolding assign_chunk
assign_chunk-Hands s now slot h i mark c v free at idle = record {
  before = c;
  after = start_attempt now slot c;
  at_before = at;
  idle = idle;
  at_after = get_elem?-modify_self s.chunks i (start_attempt now slot) at;
  runs = refl;
  attempted = refl;
  same_range = (refl, refl);
  others = λ j ne. get_elem?-modify_ne s.chunks i j (start_attempt now slot) ne;
  running = suc (count_state is_active s.chunks + h);
  running_counted = ground (arith, v.active_counted);
  within_target = ground (arith, v.active_counted);
}

assign_next-Answers :
    (s : Scheduler) (now slot h : ℕ)
    → Inv s h
    → at_least s.active_count s.effective_target ≡ false
    → s.completed_count < length s.chunks
    → Answers s.chunks (offer (assign_next s now slot (find_retryable_chunk now s.chunks)))
unfolding offer
assign_next-Answers s now slot h v free more =
    elim (Option-cases (find_retryable_chunk now s.chunks)) [
      | inl e ↦ rw e (elim (Bool-cases (ltb s.next_undispatched (length s.chunks))) [
        | inl left ↦
            let (c, at) = get_elem?-some s.chunks s.next_undispatched (ltb→lt _ _ left) in
            let idle =
              PendingFrom-get s.next_undispatched s.chunks _ c v.untouched (omega arith) at in
            unfold assign_next in
            rw left (
              assign_chunk-Hands s now slot h s.next_undispatched (suc s.next_undispatched) c v free
                at (inl idle))
        | inr end ↦ unfold assign_next in rw end (more, refl)
      ])
      | inr (i, e) ↦
          let (c, at, wait) = find_retryable_waits now s.chunks i e in
          rw e (
            unfold assign_next in
            assign_chunk-Hands s now slot h i s.next_undispatched c v free at (inr wait))
    ]

try_assign-Answers :
    (s : Scheduler) (now slot h : ℕ)
    → Inv s h
    → s.completed_count < length s.chunks
    → Answers s.chunks (offer (try_assign s now slot))
unfolding try_assign offer
try_assign-Answers s now slot h v more =
    elim (Bool-cases (slot_suppressed now (get_elem? s.workers slot))) [
      | inl e ↦ rw e (more, refl)
      | inr e ↦ rw e (elim (Bool-cases (at_least s.active_count s.effective_target)) [
        | inl full ↦ rw full (more, refl)
        | inr room ↦ rw room (assign_next-Answers s now slot h v room more)
      ])
    ]

check_fatal-Answers :
    (s : Scheduler) (now slot h : ℕ) (e : Option Exhausted)
    → s.fatal_err ≡ e
    → Inv s h
    → Answers s.chunks (check_fatal s now slot e)
check_fatal-Answers s now slot h (some e) eq v = unfold check_fatal in (eq, refl)
check_fatal-Answers s now slot h none eq v =
    elim (Bool-cases (leb (length s.chunks) s.completed_count)) [
      | inl all ↦
          unfold check_fatal in
          rw all
            (AllCompleted-of_count s.chunks (rw (← v.completed_counted) (leb→le _ _ all)), refl)
      | inr left ↦ unfold check_fatal in rw left (try_assign-Answers s now slot h v (ground arith))
    ]

pub cleanup-chunks : (s : Scheduler) (now : ℕ) → (cleanup s now).chunks ≡ s.chunks
unfolding cleanup
cleanup-chunks s now = ground arith

next_assignment-Answers :
    (s : Scheduler) (now slot h : ℕ) → Inv s h → Answers s.chunks (next_assignment s now slot)
unfolding next_assignment
next_assignment-Answers s now slot h v =
    let v' = cleanup-Inv s now h v in
    subst (λ cs. Answers cs (next_assignment s now slot)) (cleanup-chunks s now)
      (elim (Bool-cases (cleanup s now).cancelled) [
        | inl off ↦ rw off (off, refl)
        | inr on ↦ rw on (check_fatal-Answers (cleanup s now) now slot h _ refl v')
      ])

-- A scheduler that starts with completed chunks in front and pending ones behind, and then runs any
-- sequence of its methods, answers each `NextAssignment` truly: "complete" only if every chunk is
-- completed; a chunk only if it was idle, with its range and the other chunks unchanged and the
-- running transfers within the target; an error only if one was recorded; a stop only if cancelled.
pub next_assignment-Reach :
    (cfg : Config) (cs : List Chunk) (has_sink : Bool) (s t : Scheduler) (h now slot : ℕ)
    → IsContiguous cs
    → new cfg cs has_sink ≡ some s
    → Reach s t h
    → Answers t.chunks (next_assignment t now slot)
next_assignment-Reach cfg cs has_sink s t h now slot ok e r =
    next_assignment-Answers t now slot h (Reach-Inv r (new-Inv cfg cs has_sink s ok e))
