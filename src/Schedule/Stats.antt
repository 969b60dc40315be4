-- ===== src/Schedule/Stats.antt =====
-- internal/schedule/stats.go: what the scheduler knows of one worker slot. `RecentThroughput`, a
-- float64 that only the display reads, has no field. Times are nanoseconds since Go's zero time;
-- a duration is an int64 bit pattern.
use pget.Base.{ℕ, suc, ◌+◌, ◌-◌, Bool, List, [], ◌∷◌, ◌++◌, ltb, if◌then◌else◌, length, drop}
use pget.Base.Int64.{add64, is_negative, modulus}

pub record WorkerStats : Type 0 where
  pub slot_id : ℕ
  pub useful_bytes : ℕ
  pub successful_chunks : ℕ
  pub admission_failures : ℕ
  pub recent_chunk_durations : List ℕ
  pub suppressed_until : ℕ
  pub last_success : ℕ

abbrev pub second : ℕ
second = 1000000000

-- `t.Add(d)`.
unfoldable pub time_add : ℕ → ℕ → ℕ
time_add t d = if is_negative d then t - (modulus - d) else t + d

unfoldable pub is_suppressed : ℕ → WorkerStats → Bool
is_suppressed now w = ltb now w.suppressed_until

-- A window of the latest `n` entries.
unfoldable pub push_window : ℕ → ℕ → List ℕ → List ℕ
push_window n d ds =
    let grown = ds ++ d ∷ [] in if ltb n (length grown) then drop 1 grown else grown

unfoldable pub record_success : ℕ → ℕ → ℕ → WorkerStats → WorkerStats
unfolding push_window
record_success now bytes d w = record w {
  successful_chunks = suc w.successful_chunks;
  useful_bytes = add64 w.useful_bytes bytes;
  admission_failures = 0;
  last_success = now;
  recent_chunk_durations = push_window 16 d w.recent_chunk_durations;
}

unfoldable pub record_admission_failure : WorkerStats → WorkerStats
record_admission_failure w = record w { admission_failures = suc w.admission_failures }
