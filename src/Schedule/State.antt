-- ===== src/Schedule/State.antt =====
-- internal/schedule/scheduler.go: the configuration, the state and the constructor. The mutex makes
-- each method one step, so a method is a function from the state to the state; a blocking wait is
-- a return to the caller's schedule of steps. The context is the flag `cancelled`, the stream sink
-- is a flag whether there is one, and the ticker that wakes the waiters has no state.
use pget.Base.{
  ℕ, zero, suc, ◌+◌, ◌*◌, Bool, true, false, ◌&&◌, List, [], ◌∷◌, Option, none, some, ◌==◌, ltb,
  if◌then◌else◌, length,
}
use pget.Base.Int64.{div64, lt64}
use pget.Base.Int.{ℤ, pos}
use pget.Chunk.{Chunk, State, active, completed, retry_wait}
use pget.Schedule.Stats.{WorkerStats, second}

pub record Config : Type 0 where
  pub requested_connections : ℕ
  pub stream_buffer_size : ℕ
  pub split_size : ℕ
  pub max_tries : ℕ
  pub stream_mode : Bool

-- The error of a chunk that may not be tried again.
pub record Exhausted : Type 0 where
  pub chunk : ℕ
  pub attempts : ℕ
  pub max_tries : ℕ

pub record Scheduler : Type 0 where
  pub cfg : Config
  pub chunks : List Chunk
  pub workers : List WorkerStats
  pub next_undispatched : ℕ
  pub active_count : ℤ
  pub completed_count : ℕ
  pub effective_target : ℕ
  pub fatal_err : Option Exhausted
  pub has_sink : Bool
  pub hedged_chunk_idx : Option ℕ
  pub hedge_active : Bool
  pub cooldown_until : ℕ
  pub restore_backoff : ℕ
  pub recent_chunk_durations : List ℕ
  pub pressure_events : ℕ
  pub cancelled : Bool

abbrev pub is_active : State → Bool
is_active active = true
is_active _ = false

abbrev pub is_completed : State → Bool
is_completed completed = true
is_completed _ = false

abbrev pub is_retry_wait : State → Bool
is_retry_wait retry_wait = true
is_retry_wait _ = false

-- How many chunks are in a state that passes the test.
abbrev pub count_state : (State → Bool) → List Chunk → ℕ
count_state p [] = 0
count_state p (c ∷ cs) = (if p c.state then 1 else 0) + count_state p cs

-- The loop that skips the completed chunks at the front.
unfoldable pub skip_completed : List Chunk → ℕ
skip_completed [] = 0
skip_completed (c ∷ cs) = if is_completed c.state then suc (skip_completed cs) else 0

unfoldable pub fresh_workers : ℕ → ℕ → List WorkerStats
fresh_workers zero i = []
fresh_workers (suc n) i =
    record {
      slot_id = i;
      useful_bytes = 0;
      successful_chunks = 0;
      admission_failures = 0;
      recent_chunk_durations = [];
      suppressed_until = 0;
      last_success = 0;
    }
    ∷ fresh_workers n (suc i)

-- The limit that the stream buffer sets.
unfoldable pub limit_by_memory : Config → ℕ
limit_by_memory cfg =
    let mem_limit = div64 cfg.stream_buffer_size cfg.split_size in
    let effective =
      if lt64 mem_limit cfg.requested_connections then mem_limit else cfg.requested_connections in
    if lt64 effective 1 then 1 else effective

unfoldable pub initial_target : Config → Bool → ℕ → ℕ
unfolding limit_by_memory
initial_target cfg has_sink count =
    let effective =
      if cfg.stream_mode && has_sink then limit_by_memory cfg else cfg.requested_connections in
    let fitting = if ltb count effective then count else effective in
    if ltb fitting 1 then 1 else fitting

-- `none` is the panic of a division by zero.
unfoldable pub new : Config → List Chunk → Bool → Option Scheduler
unfolding initial_target skip_completed fresh_workers
new cfg chunks has_sink =
    if cfg.stream_mode && has_sink && cfg.split_size == 0
    then none
    else some (record {
      cfg = cfg;
      chunks = chunks;
      workers = fresh_workers cfg.requested_connections 0;
      next_undispatched = skip_completed chunks;
      active_count = pos 0;
      completed_count = count_state is_completed chunks;
      effective_target = initial_target cfg has_sink (length chunks);
      fatal_err = none;
      has_sink = has_sink;
      hedged_chunk_idx = none;
      hedge_active = false;
      cooldown_until = 0;
      restore_backoff = 30 * second;
      recent_chunk_durations = [];
      pressure_events = 0;
      cancelled = false;
    })
