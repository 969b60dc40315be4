-- ===== src/Sink/Stream.antt =====
-- internal/sink/stream.go: the reorder buffer of the ordered stream. Each critical section of the
-- mutex is one function. `completed` is an association list; the map `active` is never filled and
-- has no field. A chunk's bytes are a list of numbers.
pub mod Order
pub mod Delivery
use pget.Base.{
  ℕ, zero, suc, ◌+◌, Bool, true, false, not, List, [], ◌∷◌, ◌++◌, Option, none, some, ◌==◌,
  if◌then◌else◌, length,
}
use pget.Base.Int64.{add64, sub64, lt64}
use pget.Chunk.{Chunk}

pub record ChunkData : Type 0 where
  pub chunk : Chunk
  pub bytes : List ℕ

-- `gap` names an index that is still in the map and the next one expected.
pub data SinkError : Type 0 where
  over_limit wrong_length cancelled : SinkError
  write_failed : ℕ → SinkError
  gap : ℕ → ℕ → SinkError

pub record StreamSink : Type 0 where
  pub buffer_size : ℕ
  pub reserved : ℕ
  pub next_index : ℕ
  pub completed : List (ℕ × ChunkData)
  pub written_count : ℕ
  pub fatal_err : Option SinkError
  pub closed : Bool

unfoldable pub lookup : ℕ → List (ℕ × ChunkData) → Option ChunkData
lookup k [] = none
lookup k ((j, d) ∷ m) = if j == k then some d else lookup k m

unfoldable pub delete : ℕ → List (ℕ × ChunkData) → List (ℕ × ChunkData)
delete k [] = []
delete k ((j, d) ∷ m) = if j == k then delete k m else (j, d) ∷ delete k m

unfoldable pub new_sink : ℕ → StreamSink
new_sink buffer_size = record {
  buffer_size = buffer_size;
  reserved = 0;
  next_index = 0;
  completed = [];
  written_count = 0;
  fatal_err = none;
  closed = false;
}

-- The error, if any, comes with the state.
unfoldable pub reserve : StreamSink → ℕ → StreamSink × Option SinkError
reserve s length =
    if lt64 s.buffer_size (add64 s.reserved length)
    then (s, some over_limit)
    else (record s { reserved = add64 s.reserved length }, none)

unfoldable pub submit_checked :
    StreamSink → Chunk → List ℕ → Option SinkError → StreamSink × Option SinkError
submit_checked s c bytes (some e) = (s, some e)
submit_checked s c bytes none =
    if length bytes == c.length
    then (
      record s {
        completed = (c.index, record { chunk = c; bytes = bytes }) ∷ delete c.index s.completed;
      },
      none,
    )
    else (s, some wrong_length)

unfoldable pub submit : StreamSink → Chunk → List ℕ → StreamSink × Option SinkError
unfolding submit_checked
submit s c bytes = submit_checked s c bytes s.fatal_err

unfoldable pub close : StreamSink → StreamSink
close s = record s { closed = true }

-- Where `writeLoop` stands: before a test of the loop, in the write that runs with the mutex free,
-- or at its end with the error it returns.
pub data Writer : Type 0 where
  scanning : Writer
  writing : ChunkData → Writer
  returned : Option SinkError → Writer

-- The frontier chunk leaves the map, its reservation is released and the frontier moves on.
unfoldable pub take_frontier : StreamSink → ChunkData → StreamSink
take_frontier s cd = record s {
  completed = delete s.next_index s.completed;
  reserved = sub64 s.reserved cd.chunk.length;
  next_index = suc s.next_index;
}

-- The end of a closed sink: `range` yields some key of the map, if there is one.
unfoldable pub finish : StreamSink → List (ℕ × ChunkData) → StreamSink × Writer
finish s [] = (s, returned none)
finish s ((i, d) ∷ m) =
    (record s { fatal_err = some (gap i s.next_index) }, returned (some (gap i s.next_index)))

unfoldable pub scan_frontier : StreamSink → Option ChunkData → StreamSink × Writer
unfolding take_frontier finish
scan_frontier s (some cd) = (take_frontier s cd, writing cd)
scan_frontier s none = if s.closed then finish s s.completed else (s, scanning)

unfoldable pub scan_checked : StreamSink → Option SinkError → StreamSink × Writer
unfolding scan_frontier
scan_checked s (some e) = (s, returned (some e))
scan_checked s none = scan_frontier s (lookup s.next_index s.completed)

-- One critical section of `writeLoop`; the answer `scanning` is `cond.Wait()`.
unfoldable pub scan : StreamSink → StreamSink × Writer
unfolding scan_checked
scan s = scan_checked s s.fatal_err

-- The critical section after a write, which has succeeded or failed.
unfoldable pub after_write : StreamSink → ChunkData → Bool → StreamSink × Writer
after_write s cd true = (record s { written_count = suc s.written_count }, scanning)
after_write s cd false = (
  record s { fatal_err = some (write_failed cd.chunk.index) },
  returned (some (write_failed cd.chunk.index)),
)
