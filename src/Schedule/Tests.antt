-- ===== src/Schedule/Tests.antt =====
-- The scheduler on small chunk tables, and its theorems at inputs that meet their hypotheses.
use pget.Base.{
  ℕ, get_elem?, ◌*◌, ◌≡◌, ◌≢◌, refl, inl, inr, true, false, List, [], ◌∷◌, none, some, arith,
}
use pget.Base.Int.{pos}
use pget.Chunk.{Chunk, State, pending, completed}
use pget.Schedule.Stats.{second, is_suppressed}
use pget.Schedule.State.{Config, Scheduler, new, fresh_workers}
use pget.Schedule.Assign.{
  finished, fails, waits, cleanup, start_attempt, next_assignment, try_assign, find_retryable_chunk,
  slot_suppressed,
}
use pget.Schedule.Report.{retry_backoff, mark_complete, mark_failed}
use pget.Schedule.Counts.{AllCompleted}
use pget.Schedule.Steps.{here, next, assigns, fails_chunk}
use pget.Schedule.Assignment.{Answers, next_assignment-Reach}
use pget.Schedule.Resume.{resume_finishes_early}
use pget.Schedule.Masked.{exhaustion_never_reported}
use pget.Schedule.Waiting.{IsHeldUp, waits-IsHeldUp}
use pget.Schedule.Backoff.{promised, retry_backoff-promised, retry_backoff-vanishes}

abbrev piece : ℕ → State → Chunk
piece i state = record {
  index = i;
  start = i * 4;
  length = 4;
  state = state;
  attempts = 0;
  worker_slot = none;
  start_time = 0;
  retry_after = 0;
  bytes_recv = 0;
  last_progress = 0;
  hedged = false;
}

abbrev two_workers : Config
two_workers = record {
  requested_connections = 2;
  stream_buffer_size = 0;
  split_size = 4;
  max_tries = 20;
  stream_mode = false;
}

abbrev with_chunks : List Chunk → ℕ → ℕ → Scheduler
with_chunks cs mark done = record {
  cfg = two_workers;
  chunks = cs;
  workers = fresh_workers 2 0;
  next_undispatched = mark;
  active_count = pos 0;
  completed_count = done;
  effective_target = 2;
  fatal_err = none;
  has_sink = false;
  hedged_chunk_idx = none;
  hedge_active = false;
  cooldown_until = 0;
  restore_backoff = 30 * second;
  recent_chunk_durations = [];
  pressure_events = 0;
  cancelled = false;
}

abbrev contiguous : List Chunk
contiguous = piece 0 completed ∷ piece 1 pending ∷ piece 2 pending ∷ []

new-contiguous : new two_workers contiguous false ≡ some (with_chunks contiguous 1 1)
unfolding new
new-contiguous = refl

-- Worker 0 has taken chunk 1, and its transfer has failed.
abbrev after_failure : Scheduler
after_failure = mark_failed (next_assignment (with_chunks contiguous 1 1) 10 0).0 20 1 true

next_assignment-Reach_example : Answers after_failure.chunks (next_assignment after_failure 30 1)
next_assignment-Reach_example =
    next_assignment-Reach two_workers contiguous false (with_chunks contiguous 1 1) after_failure 0
      30 1 (inl (refl, inr (refl, (refl, tt)))) new-contiguous
      (next (next here (assigns 10 0)) (fails_chunk 20 1 true))

-- A resumed table: chunk 0 is missing, chunk 1 is on disk.
abbrev gapped : Scheduler
gapped = with_chunks (piece 0 pending ∷ piece 1 completed ∷ []) 0 1

-- Worker 0 has taken chunk 0.
abbrev gapped_started : Scheduler
gapped_started = (next_assignment gapped 10 0).0

gapped-new : new two_workers gapped.chunks false ≡ some gapped
unfolding new
gapped-new = refl

resume_finishes_early_example :
    ((try_assign gapped_started 11 1).1 ≡ some 1)
    × ((next_assignment (mark_complete (try_assign gapped_started 11 1).0 15 1) 16 1).1 ≡ finished)
    × ¬ AllCompleted (mark_complete (try_assign gapped_started 11 1).0 15 1).chunks
unfolding next_assignment find_retryable_chunk slot_suppressed is_suppressed fresh_workers
    try_assign
resume_finishes_early_example =
    resume_finishes_early gapped_started 11 15 1 (piece 1 completed) refl refl refl refl refl refl
      refl refl refl 16 1

retry_backoff-promised_example : retry_backoff 4 ≡ promised 4
retry_backoff-promised_example = retry_backoff-promised 4 (omega arith) (omega arith)

retry_backoff-vanishes_example : retry_backoff 60 ≡ 0
retry_backoff-vanishes_example = retry_backoff-vanishes 60 (omega arith)

-- Chunk 1 has failed for good.
abbrev after_exhaustion : Scheduler
after_exhaustion = mark_failed (next_assignment (with_chunks contiguous 1 1) 10 0).0 20 1 false

exhaustion_never_reported_example :
    (next_assignment after_exhaustion 30 1).1
    ≢ fails (record { chunk = 1; attempts = 1; max_tries = 20 })
exhaustion_never_reported_example =
    exhaustion_never_reported two_workers contiguous false (with_chunks contiguous 1 1)
      after_exhaustion 0 30 1 (record { chunk = 1; attempts = 1; max_tries = 20 }) new-contiguous
      (next (next here (assigns 10 0)) (fails_chunk 20 1 false))

-- Both chunks run, and a third worker asks.
abbrev all_running : Scheduler
all_running = (next_assignment (next_assignment (with_chunks contiguous 1 1) 10 0).0 11 1).0

waits_test : (next_assignment all_running 12 0).1 ≡ waits
unfolding next_assignment find_retryable_chunk slot_suppressed is_suppressed fresh_workers
    try_assign
waits_test = refl

first_running : get_elem? all_running.chunks 1 ≡ some (start_attempt 10 0 (piece 1 pending))
unfolding next_assignment try_assign fresh_workers is_suppressed find_retryable_chunk
    slot_suppressed start_attempt
first_running = refl

waits-IsHeldUp_example :
    IsHeldUp (cleanup all_running 12) 12 0 (start_attempt 10 0 (piece 1 pending))
waits-IsHeldUp_example =
    waits-IsHeldUp two_workers contiguous false (with_chunks contiguous 1 1) all_running 0 12 0 1
      (start_attempt 10 0 (piece 1 pending)) new-contiguous
      (next (next here (assigns 10 0)) (assigns 11 1)) waits_test first_running
