-- ===== src/Job/Download.antt =====
-- internal/job/runner.go: downloadParallelFile and downloadParallelStream around their workers. The
-- outcomes of the sidecar's Create, of the opening of the file and of Finalize are arguments.
pub mod File
pub mod Outside
pub mod Tries
pub mod NewSidecar
pub mod Stream
mod Samples
mod Tests
mod StreamTests
use pget.Base.{
  ℕ, zero, suc, Bool, true, false, not, ◌&&◌, List, [], ◌∷◌, Option, none, some, ◌==◌,
  if◌then◌else◌,
}
use pget.Cli.{ExecutionPlan}
use pget.Chunk
use pget.Chunk.{Chunk, completed}
use pget.Schedule.State.{Scheduler, Config, new, is_completed}
use pget.Schedule.Report.{progress}
use pget.Sink.File.{FileSink}
use pget.Job.Exit.{exit_success, exit_io_error, workers_code}
use pget.Job.Worker.{Pc, ended, WorkerError}
use pget.Job.Run.{Workers}

-- The chunks that the sidecar's bitmap names are completed.
unfoldable pub mark_done : (ℕ → Bool) → List Chunk → List Chunk
mark_done completed_chunks [] = []
mark_done completed_chunks (c ∷ cs) =
    (if completed_chunks c.index then record c { state = completed } else c)
    ∷ mark_done completed_chunks cs

-- `pendingCount == 0`
unfoldable pub none_pending : (ℕ → Bool) → List Chunk → Bool
none_pending completed_chunks [] = true
none_pending completed_chunks (c ∷ cs) =
    completed_chunks c.index && none_pending completed_chunks cs

unfoldable pub file_config : ExecutionPlan → Config
file_config plan = record {
  requested_connections = plan.connections;
  stream_buffer_size = 0;
  split_size = plan.split_size;
  max_tries = plan.max_tries;
  stream_mode = false;
}

unfoldable pub stream_config : ExecutionPlan → Config
stream_config plan = record {
  requested_connections = plan.connections;
  stream_buffer_size = plan.buffer_size;
  split_size = plan.split_size;
  max_tries = plan.max_tries;
  stream_mode = true;
}

-- Where downloadParallelFile stands before runWorkers; `panics` is a division by zero.
pub data Prepared : Type 0 where
  panics already_complete sidecar_failed open_failed : Prepared
  started : Scheduler → FileSink → Prepared

unfoldable pub with_scheduler : FileSink → Option Scheduler → Prepared
with_scheduler sink none = panics
with_scheduler sink (some s) = started s sink

-- `opened` is what the file holds already.
unfoldable pub open_sink : ExecutionPlan → ℕ → List Chunk → Option (List ℕ) → Prepared
unfolding with_scheduler file_config
open_sink plan base_off table none = open_failed
open_sink plan base_off table (some file) =
    with_scheduler (record { file = file; base_off = base_off; has_sidecar = true; marked = [] })
      (new (file_config plan) table false)

unfoldable pub prepare_chunks :
    ExecutionPlan → (ℕ → Bool) → ℕ → Bool → Option (List ℕ) → Option (List Chunk) → Prepared
unfolding mark_done none_pending open_sink
prepare_chunks plan completed_chunks base_off created opened none = panics
prepare_chunks plan completed_chunks base_off created opened (some cs) =
    if none_pending completed_chunks cs
    then already_complete
    else if not created
    then sidecar_failed
    else open_sink plan base_off (mark_done completed_chunks cs) opened

unfoldable pub prepare_file : ExecutionPlan → ℕ → (ℕ → Bool) → ℕ → Bool → Option (List ℕ) → Prepared
unfolding prepare_chunks
prepare_file plan size completed_chunks base_off created opened =
    prepare_chunks plan completed_chunks base_off created opened (Chunk.plan plan.split_size size)

-- What the worker goroutines have sent, by the order of their ends; `describe` is an error's text.
unfoldable pub outcome : (WorkerError → List ℕ) → Pc → Option (List ℕ)
outcome describe (ended (some e)) = some (describe e)
outcome describe _ = none

unfoldable pub outcomes : (WorkerError → List ℕ) → List ℕ → (ℕ → Pc) → List (Option (List ℕ))
unfolding outcome
outcomes describe [] pcs = []
outcomes describe (i ∷ order) pcs = outcome describe (pcs i) ∷ outcomes describe order pcs

-- What runWorkers returns when its workers have ended, in the order of their slots `order`.
unfoldable pub run_code : (WorkerError → List ℕ) → List ℕ → Workers → ℕ
unfolding outcomes progress
run_code describe order w =
    let (completed_count, total) = progress w.shared.sched in
    workers_code (outcomes describe order w.pcs) completed_count total

unfoldable pub finish_file : ℕ → Bool → ℕ
finish_file code finalized = if code == exit_success && not finalized then exit_io_error else code

-- `write_failed` is whether WriteTo returned an error.
unfoldable pub finish_stream : ℕ → Bool → ℕ
finish_stream code write_failed =
    if write_failed && code == exit_success then exit_io_error else code
