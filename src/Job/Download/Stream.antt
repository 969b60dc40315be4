-- ===== src/Job/Download/Stream.antt =====
-- internal/job/runner.go: downloadParallelStream, in which the writer of the stream runs beside the
-- workers of runWorkers, and the sink is closed when they have ended.
pub mod Pieces
pub mod Submits
pub mod Invariant
pub mod Whole
use pget.Base.{ℕ, ◌<◌, ◌≡◌, true, false, List, [], ◌++◌, Option, none, some}
use pget.Schedule.State.{Scheduler}
use pget.Sink.Stream.{
  ChunkData, StreamSink, SinkError, Writer, scanning, writing, returned, new_sink, close, scan,
  after_write,
}
use pget.Job.Worker.{Dest, to_stream, Pc, ended, WorkerError}
use pget.Job.Run.{Workers, Step, launch}

-- The workers, the goroutine of WriteTo, and the bytes that the destination has got.
pub record Piped : Type 0 where
  pub workers : Workers
  pub writer : Writer
  pub output : List ℕ

abbrev pub with_sink : Workers → StreamSink → Workers
with_sink w sink = record w { shared = record w.shared { dest = to_stream sink } }

abbrev pub IsEnded : Pc → Type 0
IsEnded pc = (o : Option WorkerError) × (pc ≡ ended o)

-- A failed write may have put out any bytes `part`; the context may be cancelled while the writer waits.
pub data PipedStep (n : ℕ) (source : List ℕ) (p : Piped) : Piped → Type 0 where
  progresses :
      {w : Workers} → Step n source p.workers w → PipedStep n source p (record p { workers = w })
  scans :
      (sink : StreamSink)
      → p.workers.shared.dest ≡ to_stream sink
      → p.writer ≡ scanning
      → PipedStep n source p
          (record p { workers = with_sink p.workers (scan sink).0; writer = (scan sink).1 })
  writes :
      (sink : StreamSink) (cd : ChunkData)
      → p.workers.shared.dest ≡ to_stream sink
      → p.writer ≡ writing cd
      → PipedStep n source p (record {
        workers = with_sink p.workers (after_write sink cd true).0;
        writer = (after_write sink cd true).1;
        output = p.output ++ cd.bytes;
      })
  write_fails :
      (sink : StreamSink) (cd : ChunkData) (part : List ℕ)
      → p.workers.shared.dest ≡ to_stream sink
      → p.writer ≡ writing cd
      → PipedStep n source p (record {
        workers = with_sink p.workers (after_write sink cd false).0;
        writer = (after_write sink cd false).1;
        output = p.output ++ part;
      })
  stops :
      p.writer ≡ scanning
      → PipedStep n source p (record p { writer = returned (some SinkError.cancelled) })
  closes :
      (sink : StreamSink)
      → p.workers.shared.dest ≡ to_stream sink
      → ((i : ℕ) → i < n → IsEnded (p.workers.pcs i))
      → PipedStep n source p (record p { workers = with_sink p.workers (close sink) })

pub data PipedReach (n : ℕ) (source : List ℕ) (p : Piped) : Piped → Type 0 where
  here : PipedReach n source p p
  next : {q r : Piped} → PipedReach n source p q → PipedStep n source q r → PipedReach n source p r

-- Before the goroutines' first steps.
unfoldable pub launch_piped : Scheduler → ℕ → Piped
launch_piped s buffer_size = record {
  workers = launch s (to_stream (new_sink buffer_size));
  writer = scanning;
  output = [];
}
