-- ===== src/Job/Worker.antt =====
-- internal/job/runner.go: workerLoop. A worker stands at a `Pc`; a move is what it does up to its next
-- access to a shared object, each of which is one critical section. `Env` is what the move takes
-- from outside: the clock, the context, a reading of the sink's counters, the adapter's replies and
-- the outcome of writes.
use pget.Base.{
  ℕ, ◌+◌, Bool, true, false, List, Option, none, some, if◌then◌else◌, length, get_elem?,
}
use pget.Chunk.{Chunk}
use pget.Schedule.State.{Scheduler, Exhausted}
use pget.Schedule.Assign.{Round, stopped, fails, finished, assigned, waits, next_assignment}
use pget.Schedule.Report.{mark_complete, mark_failed, on_admission_failure, on_worker_success}
use pget.Schedule.Hedge.{SinkReadings, hedge_eligible, start_hedge, cancel_hedge}
use pget.Sink.Stream.{StreamSink, SinkError, reserve, submit}
use pget.Sink.File.{FileSink, FileError, write_chunk}

-- OpenRange and the reading of its body: an error of the first, an error of the second, or the bytes
-- that io.ReadFull has filled the buffer with.
pub data Fetch : Type 0 where
  refused broken : Fetch
  body : List ℕ → Fetch

-- `write_error` is the number of bytes that a failing write has written.
pub record Env : Type 0 where
  pub now : ℕ
  pub interrupted : Bool
  pub readings : SinkReadings
  pub fetch : ℕ → ℕ → Fetch
  pub write_error : Option ℕ
  pub mark_error : Bool
  pub elapsed : ℕ

-- One of the two sinks is not nil.
pub data Dest : Type 0 where
  to_file : FileSink → Dest
  to_stream : StreamSink → Dest

pub record Shared : Type 0 where
  pub sched : Scheduler
  pub dest : Dest
  pub progress_bytes : ℕ

pub data WorkerError : Type 0 where
  context_done : WorkerError
  exhausted : Exhausted → WorkerError
  stream_submit : SinkError → WorkerError
  file_write : FileError → WorkerError

-- Each with the worker's slot, which a duplicate changes for good, then the chunk's position.
pub data Pc : Type 0 where
  top asking : ℕ → Pc
  hedging reserving denied failing unhedging : ℕ → ℕ → Pc
  fetching : ℕ → ℕ → Bool → Pc
  delivering : ℕ → ℕ → Bool → List ℕ → Pc
  rejected : ℕ → WorkerError → Pc
  settling crediting : ℕ → ℕ → ℕ → Pc
  completing : ℕ → ℕ → Pc
  ended : Option WorkerError → Pc
  crashed : Pc

-- `slot` and the chunk, before OpenRange, after its failure, and after the sink's answer.
unfoldable pub fetched : ℕ → ℕ → Bool → Fetch → Pc
fetched slot i true (body payload) = delivering slot i true payload
fetched slot i false (body payload) = delivering slot i false payload
fetched slot i true refused = unhedging slot i
fetched slot i false refused = denied slot i
fetched slot i true broken = unhedging slot i
fetched slot i false broken = failing slot i

unfoldable pub accepted : ℕ → ℕ → Bool → ℕ → Pc
accepted slot i true n = settling slot i n
accepted slot i false n = crediting slot i n

unfoldable pub submitted : Shared → ℕ → ℕ → Bool → ℕ → StreamSink × Option SinkError → Shared × Pc
unfolding accepted
submitted sh slot i hedge n (sink, none) =
    (record sh { dest = to_stream sink }, accepted slot i hedge n)
submitted sh slot i hedge n (sink, some e) =
    (record sh { dest = to_stream sink }, rejected i (stream_submit e))

unfoldable pub stored : Shared → ℕ → ℕ → Bool → ℕ → FileSink × Option FileError → Shared × Pc
unfolding accepted
stored sh slot i hedge n (sink, none) = (record sh { dest = to_file sink }, accepted slot i hedge n)
stored sh slot i hedge n (sink, some e) =
    (record sh { dest = to_file sink }, rejected i (file_write e))

unfoldable pub deliver : Env → Shared → ℕ → Bool → Chunk → List ℕ → ℕ → Dest → Shared × Pc
unfolding submitted stored
deliver env sh slot hedge c payload i (to_stream sink) =
    submitted sh slot i hedge (length payload) (submit sink c payload)
deliver env sh slot hedge c payload i (to_file sink) =
    stored sh slot i hedge (length payload)
      (write_chunk sink c payload env.write_error env.mark_error)

-- Whether a duplicate is tried first.
unfoldable pub look_ahead : Env → Scheduler → ℕ → Dest → Pc
look_ahead env s slot (to_file sink) = asking slot
look_ahead env s slot (to_stream sink) = elim (hedge_eligible s env.now env.readings) [
  | none ↦ asking slot
  | some i ↦ hedging slot i
]

unfoldable pub hedge_started : Shared → ℕ → ℕ → Option (Scheduler × Option ℕ) → Shared × Pc
hedge_started sh slot i none = (sh, crashed)
hedge_started sh slot i (some (s, none)) = (record sh { sched = s }, asking slot)
hedge_started sh slot i (some (s, some hedge_slot)) =
    (record sh { sched = s }, fetching hedge_slot i true)

unfoldable pub first_stop : ℕ → ℕ → Dest → Pc
first_stop slot i (to_file sink) = fetching slot i false
first_stop slot i (to_stream sink) = reserving slot i

-- A round that waits is followed by another one.
unfoldable pub answered : Shared → ℕ → Scheduler × Round → Shared × Pc
unfolding first_stop
answered sh slot (s, stopped) = (record sh { sched = s }, ended (some context_done))
answered sh slot (s, fails e) = (record sh { sched = s }, ended (some (exhausted e)))
answered sh slot (s, finished) = (record sh { sched = s }, ended none)
answered sh slot (s, assigned i) = (record sh { sched = s }, first_stop slot i sh.dest)
answered sh slot (s, waits) = (record sh { sched = s }, asking slot)

unfoldable pub reserved : Shared → ℕ → ℕ → StreamSink × Option SinkError → Shared × Pc
reserved sh slot i (sink, none) = (record sh { dest = to_stream sink }, fetching slot i false)
reserved sh slot i (sink, some e) = (record sh { dest = to_stream sink }, failing slot i)

unfoldable pub reserve_for : Shared → ℕ → ℕ → Chunk → Dest → Shared × Pc
unfolding reserved
reserve_for sh slot i c (to_file sink) = (sh, fetching slot i false)
reserve_for sh slot i c (to_stream sink) = reserved sh slot i (reserve sink c.length)

-- What a worker does with the chunk that its pointer names; a position past the table names none.
unfoldable pub with_chunk : Shared → Option Chunk → (Chunk → Shared × Pc) → Shared × Pc
with_chunk sh none f = (sh, crashed)
with_chunk sh (some c) f = f c

unfoldable pub move : Env → Shared → Pc → Shared × Pc
unfolding look_ahead hedge_started answered reserve_for fetched deliver with_chunk
move env sh (top slot) = (
  sh,
  (if env.interrupted then ended (some context_done) else look_ahead env sh.sched slot sh.dest),
)
move env sh (hedging slot i) = hedge_started sh slot i (start_hedge sh.sched env.now i)
move env sh (asking slot) = answered sh slot (next_assignment sh.sched env.now slot)
move env sh (reserving slot i) =
    with_chunk sh (get_elem? sh.sched.chunks i) (λ c. reserve_for sh slot i c sh.dest)
move env sh (fetching slot i hedge) =
    with_chunk sh (get_elem? sh.sched.chunks i)
      (λ c. (sh, fetched slot i hedge (env.fetch c.start c.length)))
move env sh (denied slot i) =
    (record sh { sched = on_admission_failure sh.sched env.now slot }, failing slot i)
move env sh (failing slot i) =
    with_chunk sh (get_elem? sh.sched.chunks i)
      (λ c. (record sh { sched = mark_failed sh.sched env.now c.index true }, top slot))
move env sh (unhedging slot i) =
    with_chunk sh (get_elem? sh.sched.chunks i)
      (λ c. (record sh { sched = cancel_hedge sh.sched c.index }, top slot))
move env sh (delivering slot i hedge payload) =
    with_chunk sh (get_elem? sh.sched.chunks i) (λ c. deliver env sh slot hedge c payload i sh.dest)
move env sh (rejected i e) =
    with_chunk sh (get_elem? sh.sched.chunks i)
      (λ c. (record sh { sched = mark_failed sh.sched env.now c.index false }, ended (some e)))
move env sh (settling slot i n) =
    with_chunk sh (get_elem? sh.sched.chunks i)
      (λ c. (record sh { sched = cancel_hedge sh.sched c.index }, crediting slot i n))
move env sh (crediting slot i n) = with_chunk sh (get_elem? sh.sched.chunks i) (λ c. (
  record sh {
    sched = on_worker_success sh.sched env.now slot c.length env.elapsed;
    progress_bytes = sh.progress_bytes + n;
  },
  completing slot i,
))
move env sh (completing slot i) =
    with_chunk sh (get_elem? sh.sched.chunks i)
      (λ c. (record sh { sched = mark_complete sh.sched env.now c.index }, top slot))
move env sh (ended o) = (sh, ended o)
move env sh crashed = (sh, crashed)
