-- ===== src/Job/Download/StreamTests.antt =====
-- A whole download to the standard output, as a trace of the moves of two workers and the writer.
use pget.Base.{
  ℕ, zero, suc, ◌<◌, ◌≡◌, refl, true, false, List, [], ◌∷◌, none, some, arith, ◌++◌, All,
}
use pget.Chunk
use pget.Chunk.{Chunk, pending}
use pget.Schedule.Stats.{is_suppressed, time_add}
use pget.Base.Int64.{div64}
use mathlib.Core.Bool.{xor}
use pget.Schedule.Assign.{next_assignment, try_assign, find_retryable_chunk}
use pget.Schedule.Hedge.{hedge_eligible}
use pget.Schedule.Report.{
  mark_failed, on_admission_failure, mark_complete, on_worker_success, retry_backoff,
}
use pget.Job.Exit.{workers_code}
use pget.Schedule.State.{Scheduler, new, fresh_workers}
use pget.Sink.Stream.{
  lookup, delete, new_sink, StreamSink, Writer, scanning, writing, returned, scan, after_write,
  close, reserve, submit,
}
use pget.Job.Worker.{Dest, to_file, to_stream, WorkerError, move}
use pget.Job.Download.Stream.{
  Piped, with_sink, IsEnded, progresses, scans, writes, closes, PipedReach, here, next,
  launch_piped,
}
use pget.Job.Download.Stream.Whole.{failed, download_stream-source}
use pget.Job.Run.{Step, launch, update}
use pget.Job.Download.{file_config, stream_config, finish_stream, run_code}
use pget.Job.Download.Samples.{
  contents, surroundings, Event, surroundings-Serves, IsEvent, small_plan, small_table, begun,
}

abbrev begun_stream : Scheduler
begun_stream = record begun { cfg = stream_config small_plan; has_sink = true }

planned_test : Chunk.plan 4 6 ≡ some small_table
unfolding Chunk.plan div64 xor Chunk.chunk_at
planned_test = refl

stream_test : new (stream_config small_plan) small_table true ≡ some begun_stream
unfolding new div64 xor stream_config file_config
stream_test = refl

-- The writer's next move, where it has one.
abbrev write_next : Piped → Dest → Writer → Piped
write_next p (to_stream sink) scanning = record p {
  workers = with_sink p.workers (scan sink).0;
  writer = (scan sink).1;
}
write_next p (to_stream sink) (writing cd) = record {
  workers = with_sink p.workers (after_write sink cd true).0;
  writer = (after_write sink cd true).1;
  output = p.output ++ cd.bytes;
}
write_next p (to_stream sink) (returned o) = p
write_next p (to_file sink) writer = p

write_next-Reach :
    (v p : Piped) (dest : Dest) (writer : Writer)
    → p.workers.shared.dest ≡ dest
    → p.writer ≡ writer
    → PipedReach 2 contents v p
    → PipedReach 2 contents v (write_next p dest writer)
write_next-Reach v p (to_stream sink) scanning to at r = next r (scans sink to at)
write_next-Reach v p (to_stream sink) (writing cd) to at r = next r (writes sink cd to at)
write_next-Reach v p (to_stream sink) (returned o) to at r = r
write_next-Reach v p (to_file sink) writer to at r = r

abbrev describe : WorkerError → List ℕ
describe e = []

abbrev write_on : Piped → Piped
write_on p = write_next p p.workers.shared.dest p.writer

write_on-Reach : (v p : Piped) → PipedReach 2 contents v p → PipedReach 2 contents v (write_on p)
write_on-Reach v p r = write_next-Reach v p p.workers.shared.dest p.writer refl refl r

abbrev work_on : Piped → List Event → Piped
work_on p [] = p
work_on p ((i, up, now) ∷ rest) =
    let m = move (surroundings up now) p.workers.shared (p.workers.pcs i) in
    work_on (record p { workers = record { shared = m.0; pcs = update p.workers.pcs i m.1 } }) rest

work_on-Reach :
    (v : Piped) (events : List Event) (p : Piped)
    → All (IsEvent 2) events
    → PipedReach 2 contents v p
    → PipedReach 2 contents v (work_on p events)
work_on-Reach v [] p h r = r
work_on-Reach v ((i, up, now) ∷ rest) p h r =
    work_on-Reach v rest _ h.1
      (next r (progresses (Step.works i (surroundings up now) h.0 (surroundings-Serves up now))))

-- The second chunk is delivered first.
abbrev stream_trace : List Event
stream_trace =
    (0, true, 1)
    ∷ (1, true, 1)
    ∷ (0, true, 1)
    ∷ (1, true, 1)
    ∷ (0, true, 1)
    ∷ (1, true, 1)
    ∷ (1, true, 1)
    ∷ (1, true, 1)
    ∷ (1, true, 1)
    ∷ (1, true, 1)
    ∷ (0, true, 1)
    ∷ (0, true, 1)
    ∷ (0, true, 1)
    ∷ (0, true, 1)
    ∷ (1, true, 1)
    ∷ (1, true, 1)
    ∷ (0, true, 1)
    ∷ (0, true, 1)
    ∷ []

abbrev worked : Piped
worked = work_on (launch_piped begun_stream 8) stream_trace

abbrev put_out : Piped
put_out = write_on (write_on (write_on (write_on worked)))

put_out_test : put_out.output ≡ contents
unfolding launch_piped move launch next_assignment file_config stream_config try_assign
    fresh_workers is_suppressed find_retryable_chunk mark_failed on_admission_failure mark_complete
    on_worker_success time_add retry_backoff new_sink submit reserve hedge_eligible scan after_write
    close lookup delete
put_out_test = refl

abbrev last_sink : StreamSink
last_sink = record {
  buffer_size = 8;
  reserved = 0;
  next_index = 2;
  completed = [];
  written_count = 2;
  fatal_err = none;
  closed = false;
}

sink_test : put_out.workers.shared.dest ≡ to_stream last_sink
unfolding launch_piped move launch next_assignment file_config stream_config try_assign
    fresh_workers is_suppressed find_retryable_chunk mark_failed on_admission_failure mark_complete
    on_worker_success time_add retry_backoff new_sink submit reserve hedge_eligible scan after_write
    close lookup delete
sink_test = refl

all-IsEnded : (i : ℕ) → i < 2 → IsEnded (put_out.workers.pcs i)
unfolding launch_piped move launch next_assignment file_config stream_config try_assign
    fresh_workers is_suppressed find_retryable_chunk mark_failed on_admission_failure mark_complete
    on_worker_success time_add retry_backoff new_sink submit reserve hedge_eligible scan after_write
    close lookup delete
all-IsEnded zero lt = (none, refl)
all-IsEnded (suc zero) lt = (none, refl)
all-IsEnded (suc (suc i)) lt = absurd (omega arith)

abbrev closed_down : Piped
closed_down = write_on (record put_out { workers = with_sink put_out.workers (close last_sink) })

put_out-Reach : PipedReach 2 contents (launch_piped begun_stream 8) put_out
put_out-Reach = write_on-Reach _ _ (
    write_on-Reach _ _ (
      write_on-Reach _ _
        (write_on-Reach _ worked (work_on-Reach _ stream_trace _ (ground arith) here))))

closed_down-Reach : PipedReach 2 contents (launch_piped begun_stream 8) closed_down
closed_down-Reach = write_on-Reach _ _ (next put_out-Reach (closes last_sink sink_test all-IsEnded))

returned_test : closed_down.writer ≡ returned none
unfolding launch_piped move launch next_assignment file_config stream_config try_assign
    fresh_workers is_suppressed find_retryable_chunk mark_failed on_admission_failure mark_complete
    on_worker_success time_add retry_backoff new_sink submit reserve hedge_eligible scan after_write
    close lookup delete
returned_test = refl

code_test : finish_stream (run_code describe (0 ∷ 1 ∷ []) closed_down.workers) (failed none) ≡ 0
unfolding launch_piped move launch next_assignment file_config stream_config try_assign
    fresh_workers is_suppressed find_retryable_chunk mark_failed on_admission_failure mark_complete
    on_worker_success time_add retry_backoff new_sink submit reserve hedge_eligible scan after_write
    close lookup delete finish_stream run_code workers_code
code_test = refl

download_stream-source_example : closed_down.output ≡ contents
download_stream-source_example =
    download_stream-source (0 ∷ 1 ∷ []) small_plan 6 contents describe small_table begun_stream
      closed_down none (omega arith) (omega arith) (omega arith) planned_test stream_test
      closed_down-Reach returned_test code_test
