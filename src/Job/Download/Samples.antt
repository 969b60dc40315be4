-- ===== src/Job/Download/Samples.antt =====
-- A small source, its server, and a plan for two workers.
use pget.Base.{
  ℕ, zero, suc, ◌*◌, ◌≤◌, ◌<◌, refl, inl, inr, Bool, false, List, [], ◌∷◌, none, arith, length,
  take, drop, leb, if◌then◌else◌, Bool-cases, leb→le,
}
use pget.Cli.{ExecutionPlan, default_plan}
use pget.Base.Int.{pos}
use pget.Chunk.{Chunk, pending}
use pget.Schedule.Stats.{second}
use pget.Schedule.State.{Scheduler, fresh_workers}
use pget.Job.Worker.{Env, Fetch, refused, body}
use pget.Job.Run.{Serves}
use pget.Job.Download.{file_config}

abbrev pub contents : List ℕ
contents = 10 ∷ 11 ∷ 12 ∷ 13 ∷ 14 ∷ 15 ∷ []

-- Ranges inside the source are answered, when the server is up.
abbrev pub reply : Bool → ℕ → ℕ → Fetch
reply up start n =
    if leb n (length (take n (drop start contents)))
    then (if up then body (take n (drop start contents)) else refused)
    else refused

abbrev pub surroundings : Bool → ℕ → Env
surroundings up now = record {
  now = now;
  interrupted = false;
  readings = record { frontier = 0; reserved = 0; buffer_size = 8 };
  fetch = reply up;
  write_error = none;
  mark_error = false;
  elapsed = 1;
}

-- Who moves, whether the server is up, and when.
abbrev pub Event : Type 0
Event = ℕ × Bool × ℕ

take-length : (n : ℕ) (xs : List ℕ) → length (take n xs) ≤ n
take-length zero xs = omega arith
take-length (suc n) [] = omega arith
take-length (suc n) (x ∷ xs) = omega (arith, take-length n xs)

pub surroundings-Serves : (up : Bool) (now : ℕ) → Serves contents (surroundings up now)
surroundings-Serves up now start n =
    elim (Bool-cases (leb n (length (take n (drop start contents))))) [
      | inl e ↦ elim (Bool-cases up) [
        | inl u ↦ rw (e, u) (refl, omega (arith, leb→le _ _ e, take-length n (drop start contents)))
        | inr u ↦ rw (e, u) tt
      ]
      | inr e ↦ rw e tt
    ]

abbrev pub IsEvent : ℕ → Event → Type 0
IsEvent n (i, up, now) = i < n

abbrev pub small_plan : ExecutionPlan
small_plan = record default_plan { connections = 2; split_size = 4; buffer_size = 8; max_tries = 3 }

abbrev pub fresh : ℕ → Bool
fresh i = false

abbrev pub small_piece : ℕ → ℕ → ℕ → Chunk
small_piece index start length = record {
  index = index;
  start = start;
  length = length;
  state = pending;
  attempts = 0;
  worker_slot = none;
  start_time = 0;
  retry_after = 0;
  bytes_recv = 0;
  last_progress = 0;
  hedged = false;
}

abbrev pub small_table : List Chunk
small_table = small_piece 0 0 4 ∷ small_piece 1 4 2 ∷ []

abbrev pub begun : Scheduler
begun = record {
  cfg = file_config small_plan;
  chunks = small_table;
  workers = fresh_workers 2 0;
  next_undispatched = 0;
  active_count = pos 0;
  completed_count = 0;
  effective_target = 2;
  fatal_err = none;
  has_sink = false;
  hedged_chunk_idx = none;
  hedge_active = false;
  cooldown_until = 0;
  restore_backoff = 30 * second;
  recent_chunk_durations = [];
  pressure_events = 0;
  cancelled = false;
}
