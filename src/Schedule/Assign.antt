-- ===== src/Schedule/Assign.antt =====
-- internal/schedule/scheduler.go: how a worker gets its next chunk. A pointer into `s.chunks` is the
-- position there. The clock is read once for each round.
use pget.Base.{
  ℕ, zero, suc, ◌*◌, ◌+◌, Bool, false, ◌&&◌, List, [], ◌∷◌, Option, none, some, ltb, leb,
  if◌then◌else◌, length, get_elem?, modify,
}
use pget.Base.Int.{increment, at_least}
use pget.Chunk.{Chunk, active}
use pget.Schedule.Stats.{WorkerStats, is_suppressed, second}
use pget.Schedule.State.{Scheduler, Exhausted, is_retry_wait}

abbrev pub shift_index : Option ℕ → Option ℕ
shift_index none = none
shift_index (some i) = some (suc i)

unfoldable pub find_retryable_chunk : ℕ → List Chunk → Option ℕ
find_retryable_chunk now [] = none
find_retryable_chunk now (c ∷ cs) =
    if is_retry_wait c.state && leb c.retry_after now
    then some zero
    else shift_index (find_retryable_chunk now cs)

unfoldable pub start_attempt : ℕ → ℕ → Chunk → Chunk
start_attempt now slot c = record c {
  state = active;
  worker_slot = some slot;
  start_time = now;
  attempts = suc c.attempts;
}

unfoldable pub assign_chunk : Scheduler → ℕ → ℕ → ℕ → Scheduler
unfolding start_attempt
assign_chunk s now i slot = record s {
  chunks = modify s.chunks i (start_attempt now slot);
  active_count = increment s.active_count;
}

-- The test of a slot outside the table is skipped.
unfoldable pub slot_suppressed : ℕ → Option WorkerStats → Bool
slot_suppressed now none = false
slot_suppressed now (some w) = is_suppressed now w

unfoldable pub assign_next : Scheduler → ℕ → ℕ → Option ℕ → Scheduler × Option ℕ
unfolding assign_chunk
assign_next s now slot (some i) = (assign_chunk s now i slot, some i)
assign_next s now slot none =
    if ltb s.next_undispatched (length s.chunks)
    then (
      assign_chunk (record s { next_undispatched = suc s.next_undispatched }) now
          s.next_undispatched slot,
      some s.next_undispatched,
    )
    else (s, none)

unfoldable pub try_assign : Scheduler → ℕ → ℕ → Scheduler × Option ℕ
unfolding assign_next slot_suppressed
try_assign s now slot =
    if slot_suppressed now (get_elem? s.workers slot)
    then (s, none)
    else if at_least s.active_count s.effective_target
    then (s, none)
    else assign_next s now slot (find_retryable_chunk now s.chunks)

unfoldable pub restore_slot : Scheduler → ℕ → Scheduler
restore_slot s now =
    let doubled = s.restore_backoff * 2 in
    let backoff = (if ltb (300 * second) doubled then 300 * second else doubled) in
    record s {
      effective_target = suc s.effective_target;
      restore_backoff = backoff;
      cooldown_until = now + backoff;
    }

unfoldable pub cleanup : Scheduler → ℕ → Scheduler
unfolding restore_slot
cleanup s now =
    if ltb s.effective_target s.cfg.requested_connections
      && ltb s.cooldown_until now
      && ltb 0 s.completed_count
      && leb 4 s.completed_count
    then restore_slot s now
    else s

-- What one round of `NextAssignment` ends in. `waits` is `cond.Wait()`: the next round follows a
-- broadcast.
pub data Round : Type 0 where
  stopped : Round
  fails : Exhausted → Round
  finished : Round
  assigned : ℕ → Round
  waits : Round

unfoldable pub offer : Scheduler × Option ℕ → Scheduler × Round
offer (s, none) = (s, waits)
offer (s, some i) = (s, assigned i)

unfoldable pub check_fatal : Scheduler → ℕ → ℕ → Option Exhausted → Scheduler × Round
unfolding offer
check_fatal s now slot (some e) = (s, fails e)
check_fatal s now slot none =
    if leb (length s.chunks) s.completed_count then (s, finished) else offer (try_assign s now slot)

unfoldable pub next_assignment : Scheduler → ℕ → ℕ → Scheduler × Round
unfolding check_fatal cleanup
next_assignment s now slot =
    let s' = cleanup s now in
    if s'.cancelled then (s', stopped) else check_fatal s' now slot s'.fatal_err
