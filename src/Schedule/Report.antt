-- ===== src/Schedule/Report.antt =====
-- internal/schedule/scheduler.go: what the workers report. A retry time is kept as the code computes
-- it, with the delay's wrap-around.
use pget.Base.{
  ℕ, suc, ◌+◌, ◌-◌, ◌*◌, ◌/◌, ◌%◌, ◌^◌, Bool, true, ◌&&◌, Option, none, some, ◌==◌, ltb, leb,
  if◌then◌else◌, length, get_elem?, modify,
}
use pget.Base.Int64.{mul64, lt64, le64, modulus}
use pget.Base.Int.{decrement}
use pget.Chunk.{Chunk, completed, retry_wait, failed}
use pget.Schedule.Stats.{
  WorkerStats, second, time_add, push_window, record_success, record_admission_failure,
}
use pget.Schedule.State.{Scheduler, is_active}

-- `1<<uint(attempts-1)` and the product are int64: both wrap around.
unfoldable pub retry_backoff : ℕ → ℕ
retry_backoff attempts =
    let tries = if attempts == 0 then 1 else attempts in
    let delay = mul64 (2 ^ (tries - 1) % modulus) second in
    if lt64 (30 * second) delay then 30 * second else delay

unfoldable pub record_chunk_duration : ℕ → Scheduler → Scheduler
unfolding push_window
record_chunk_duration d s = record s {
  recent_chunk_durations = push_window 32 d s.recent_chunk_durations;
}

unfoldable pub set_completed : Chunk → Chunk
set_completed c = record c { state = completed }

unfoldable pub complete_active : Scheduler → ℕ → ℕ → Chunk → Scheduler
unfolding record_chunk_duration set_completed
complete_active s now idx c =
    let s' = record s {
      chunks = modify s.chunks idx set_completed;
      active_count = decrement s.active_count;
      completed_count = suc s.completed_count;
    } in
    if ltb c.start_time now then record_chunk_duration (now - c.start_time) s' else s'

unfoldable pub complete_found : Scheduler → ℕ → ℕ → Option Chunk → Scheduler
unfolding complete_active
complete_found s now idx none = s
complete_found s now idx (some c) = if is_active c.state then complete_active s now idx c else s

unfoldable pub mark_complete : Scheduler → ℕ → ℕ → Scheduler
unfolding complete_found
mark_complete s now idx = complete_found s now idx (get_elem? s.chunks idx)

unfoldable pub set_retry : ℕ → Chunk → Chunk
set_retry now c = record c {
  state = retry_wait;
  retry_after = time_add now (retry_backoff c.attempts);
}

unfoldable pub set_failed : Chunk → Chunk
set_failed c = record c { state = failed }

unfoldable pub fail_active : Scheduler → ℕ → ℕ → Bool → Chunk → Scheduler
unfolding set_retry set_failed
fail_active s now idx retryable c =
    if retryable && ltb c.attempts s.cfg.max_tries
    then record s {
      chunks = modify s.chunks idx (set_retry now);
      active_count = decrement s.active_count;
    }
    else record s {
      chunks = modify s.chunks idx set_failed;
      active_count = decrement s.active_count;
      fatal_err = some (record { chunk = idx; attempts = c.attempts; max_tries = s.cfg.max_tries });
      cancelled = true;
    }

unfoldable pub fail_found : Scheduler → ℕ → ℕ → Bool → Option Chunk → Scheduler
unfolding fail_active
fail_found s now idx retryable none = s
fail_found s now idx retryable (some c) =
    if is_active c.state then fail_active s now idx retryable c else s

unfoldable pub mark_failed : Scheduler → ℕ → ℕ → Bool → Scheduler
unfolding fail_found
mark_failed s now idx retryable = fail_found s now idx retryable (get_elem? s.chunks idx)

-- `math.Max(1, math.Ceil(float64(target)/2))`, in whole numbers.
unfoldable pub halved : ℕ → ℕ
halved target = let up = (target + 1) / 2 in if ltb up 1 then 1 else up

unfoldable pub on_pressure : Scheduler → ℕ → ℕ → Scheduler
unfolding halved
on_pressure s now retry_after =
    let cooldown = if le64 retry_after 0 then 30 * second else retry_after in
    if ltb (halved s.effective_target) s.effective_target
    then record s {
      effective_target = halved s.effective_target;
      pressure_events = suc s.pressure_events;
      cooldown_until = time_add now cooldown;
    }
    else s

-- Two failures in a row suppress the slot.
unfoldable pub suppress : ℕ → WorkerStats → WorkerStats
suppress now w = record w { suppressed_until = now + 30 * second }

unfoldable pub admission_failed : Scheduler → ℕ → ℕ → Option WorkerStats → Scheduler
unfolding suppress record_admission_failure
admission_failed s now slot none = s
admission_failed s now slot (some w) =
    let counted = record s { workers = modify s.workers slot record_admission_failure } in
    let target = if ltb 1 s.effective_target then s.effective_target - 1 else s.effective_target in
    if leb 2 (record_admission_failure w).admission_failures
    then record counted {
      workers = modify counted.workers slot (suppress now);
      effective_target = target;
    }
    else counted

unfoldable pub on_admission_failure : Scheduler → ℕ → ℕ → Scheduler
unfolding admission_failed
on_admission_failure s now slot = admission_failed s now slot (get_elem? s.workers slot)

unfoldable pub on_worker_success : Scheduler → ℕ → ℕ → ℕ → ℕ → Scheduler
on_worker_success s now slot bytes d = record s {
  workers = modify s.workers slot (record_success now bytes d);
}

unfoldable pub cancel : Scheduler → Scheduler
cancel s = record s { cancelled = true }

unfoldable pub progress : Scheduler → ℕ × ℕ
progress s = (s.completed_count, length s.chunks)
