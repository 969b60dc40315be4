-- ===== src/Job/Download/Tests.antt =====
-- A whole download into a file, as a trace of the moves of two workers.
use pget.Base.{
  inl, ℕ, zero, suc, ◌<◌, ◌==◌, sym, subst, Bool, none, ◌≤◌, length, get_elem?, get_elem?-some, ◌+◌,
  ◌≡◌, refl, inr, true, false, List, [], ◌∷◌, some, arith, All,
}
use pget.Chunk
use pget.Chunk.{Chunk, completed}
use pget.Schedule.Stats.{is_suppressed, time_add}
use pget.Base.Int64.{div64}
use mathlib.Core.Bool.{xor}
use pget.Schedule.Assign.{next_assignment, try_assign, find_retryable_chunk}
use pget.Schedule.Report.{
  mark_failed, on_admission_failure, mark_complete, on_worker_success, retry_backoff,
}
use pget.Job.Exit.{workers_code}
use pget.Schedule.State.{Scheduler, new, fresh_workers}
use pget.Sink.File.{FileSink, write_chunk}
use pget.Sink.File.Placement.{byte_at}
use pget.Job.Worker.{Env, to_file, WorkerError, move}
use pget.Job.Run.{Workers, works, Reach, here, next, launch, update}
use pget.Job.Download.{mark_done, file_config, started, prepare_file, run_code}
use pget.Job.Download.Outside.{download_file-outside}
use pget.Cli.{default_plan}
use pget.Job.Download.Tries.{download_file-attempts}
use pget.Job.Download.File.{HoldsMarked, download_file-source}
use pget.Job.Download.Samples.{
  contents, surroundings, Event, surroundings-Serves, IsEvent, small_plan, fresh, small_piece,
  small_table, begun,
}

abbrev drive : Workers → List Event → Workers
drive w [] = w
drive w ((i, up, now) ∷ rest) =
    let m = move (surroundings up now) w.shared (w.pcs i) in
    drive (record { shared = m.0; pcs = update w.pcs i m.1 }) rest

drive-Reach :
    (n : ℕ) (v : Workers) (events : List Event) (w : Workers)
    → All (IsEvent n) events
    → Reach n contents v w
    → Reach n contents v (drive w events)
drive-Reach n v [] w h r = r
drive-Reach n v ((i, up, now) ∷ rest) w h r =
    drive-Reach n v rest _ h.1
      (next r (works i (surroundings up now) h.0 (surroundings-Serves up now)))

abbrev empty_file : FileSink
empty_file = record { file = []; base_off = 3; has_sidecar = true; marked = [] }

abbrev later : ℕ
later = 1000000000000

-- The first request of the second worker is refused and tried again.
abbrev trace : List Event
trace =
    (0, true, 1)
    ∷ (1, true, 1)
    ∷ (0, true, 1)
    ∷ (1, true, 1)
    ∷ (1, false, 1)
    ∷ (0, true, 1)
    ∷ (1, true, 1)
    ∷ (1, true, 1)
    ∷ (0, true, 1)
    ∷ (0, true, 1)
    ∷ (0, true, 1)
    ∷ (1, true, later)
    ∷ (1, true, later)
    ∷ (1, true, later)
    ∷ (1, true, later)
    ∷ (1, true, later)
    ∷ (1, true, later)
    ∷ (1, true, later)
    ∷ (1, true, later)
    ∷ (0, true, later)
    ∷ (0, true, later)
    ∷ []

abbrev at_end : Workers
at_end = drive (launch begun (to_file empty_file)) trace

abbrev describe : WorkerError → List ℕ
describe e = []

planned_test : Chunk.plan 4 6 ≡ some small_table
unfolding Chunk.plan div64 xor Chunk.chunk_at
planned_test = refl

prepared_test : prepare_file small_plan 6 fresh 3 true (some []) ≡ started begun empty_file
unfolding prepare_file Chunk.plan div64 xor new Chunk.chunk_at
prepared_test = refl

succeeded_test : run_code describe (1 ∷ 0 ∷ []) at_end ≡ 0
unfolding run_code move launch workers_code next_assignment file_config try_assign fresh_workers
    is_suppressed find_retryable_chunk mark_failed on_admission_failure write_chunk mark_complete
    on_worker_success time_add retry_backoff
succeeded_test = refl

-- A later run, for which the sidecar names the first chunk and the file holds it behind the base offset.
abbrev first_marked : ℕ → Bool
first_marked i = i == 0

abbrev first_file : List ℕ
first_file = 0 ∷ 0 ∷ 0 ∷ 10 ∷ 11 ∷ 12 ∷ 13 ∷ []

abbrev rest_begun : Scheduler
rest_begun = record begun {
  chunks = record (small_piece 0 0 4) { state = completed } ∷ small_piece 1 4 2 ∷ [];
  next_undispatched = 1;
  completed_count = 1;
}

abbrev rest_file : FileSink
rest_file = record empty_file { file = first_file }

abbrev rest_trace : List Event
rest_trace =
    (0, true, 1)
    ∷ (0, true, 1)
    ∷ (0, true, 1)
    ∷ (0, true, 1)
    ∷ (0, true, 1)
    ∷ (0, true, 1)
    ∷ (0, true, 1)
    ∷ (0, true, 1)
    ∷ (0, true, 1)
    ∷ (1, true, 1)
    ∷ (1, true, 1)
    ∷ (1, true, 1)
    ∷ []

abbrev rest_end : Workers
rest_end = drive (launch rest_begun (to_file rest_file)) rest_trace

rest_prepared_test :
    prepare_file small_plan 6 first_marked 3 true (some first_file) ≡ started rest_begun rest_file
unfolding prepare_file Chunk.plan div64 xor new Chunk.chunk_at mark_done
rest_prepared_test = refl

rest_succeeded_test : run_code describe (1 ∷ 0 ∷ []) rest_end ≡ 0
unfolding run_code move launch workers_code next_assignment file_config try_assign fresh_workers
    is_suppressed find_retryable_chunk mark_failed on_admission_failure write_chunk mark_complete
    on_worker_success time_add retry_backoff
rest_succeeded_test = refl

first_bytes : (y : ℕ) → y < 4 → byte_at first_file (3 + y) ≡ byte_at contents y
first_bytes zero h = refl
first_bytes (suc zero) h = refl
first_bytes (suc (suc zero)) h = refl
first_bytes (suc (suc (suc zero))) h = refl
first_bytes (suc (suc (suc (suc y)))) h = absurd (omega (arith, h))

first_held : HoldsMarked first_marked small_table 3 first_file contents
first_held zero c at m y l h =
    let same : small_piece 0 0 4 ≡ c = cc in
    first_bytes y (subst (λ d. y < d.start + d.length) (sym same) h)
first_held (suc zero) c at m y l h =
    let same : small_piece 1 4 2 ≡ c = cc in
    absurd (let q : false ≡ true = subst (λ d. first_marked d.index ≡ true) (sym same) m in cc)
first_held (suc (suc i)) c at m y l h = absurd (let q : none ≡ some c = at in cc)

download_file-source_example :
    (last : FileSink) × (rest_end.shared.dest ≡ to_file last)
    × (byte_at last.file (3 + 5) ≡ byte_at contents 5)
download_file-source_example =
    download_file-source (1 ∷ 0 ∷ []) small_plan 6 first_marked 3 true first_file contents describe
      small_table rest_begun rest_file rest_end 5 (omega arith) (omega arith) (omega arith)
      planned_test (unfold mark_done in inl (refl, inr (refl, tt))) first_held rest_prepared_test
      (drive-Reach 2 _ rest_trace _ (ground arith) here) rest_succeeded_test (omega arith)

-- The first worker is about to write, and the write fails behind two bytes.
abbrev before_torn : List Event
before_torn =
    (0, true, 1) ∷ (1, true, 1) ∷ (0, true, 1) ∷ (1, true, 1) ∷ (1, false, 1) ∷ (0, true, 1) ∷ []

abbrev full_disk : Env
full_disk = record (surroundings true 1) { write_error = some 2 }

abbrev held_up : Workers
held_up = drive (launch begun (to_file empty_file)) before_torn

abbrev torn : Workers
torn =
    let m = move full_disk held_up.shared (held_up.pcs 0) in
    record { shared = m.0; pcs = update held_up.pcs 0 m.1 }

torn_test : torn.shared.dest ≡ to_file (record empty_file { file = 0 ∷ 0 ∷ 0 ∷ 10 ∷ 11 ∷ [] })
unfolding move launch next_assignment file_config try_assign fresh_workers is_suppressed
    find_retryable_chunk mark_failed on_admission_failure write_chunk
torn_test = refl

download_file-outside_example :
    (last : FileSink) × (torn.shared.dest ≡ to_file last) × (byte_at last.file 1 ≡ 0)
download_file-outside_example =
    download_file-outside small_plan 6 fresh 3 true [] contents small_table begun empty_file torn 1
      (omega arith) (omega arith) (omega arith) (omega arith) planned_test
      (unfold mark_done in inr (refl, (refl, tt))) (λ i c at m. cc) prepared_test
      (next (drive-Reach 2 _ before_torn _ (ground arith) here)
        (works 0 full_disk (omega arith) (surroundings-Serves true 1)))
      (inl (omega arith))

both_chunks : length at_end.shared.sched.chunks ≡ 2
unfolding move launch workers_code next_assignment file_config try_assign fresh_workers
    is_suppressed find_retryable_chunk mark_failed on_admission_failure write_chunk mark_complete
    on_worker_success time_add retry_backoff
both_chunks = refl

second_chunk : (c : Chunk) × (get_elem? at_end.shared.sched.chunks 1 ≡ some c)
second_chunk = get_elem?-some at_end.shared.sched.chunks 1 (omega (arith, both_chunks))

download_file-attempts_example : second_chunk.0.attempts ≤ small_plan.max_tries
unfolding default_plan
download_file-attempts_example =
    download_file-attempts small_plan 6 fresh 3 true [] contents small_table begun empty_file at_end
      1 second_chunk.0 (omega arith) planned_test prepared_test
      (drive-Reach 2 _ trace _ (ground arith) here) second_chunk.1
