-- ===== src/Sink/Tests.antt =====
-- The stream sink at concrete chunks, and its theorems at inputs that meet their hypotheses.
use pget.Base.{
  ℕ, ◌*◌, ◌≡◌, ◌≢◌, ◌<◌, refl, inl, true, false, List, [], ◌∷◌, ◌++◌, none, some, arith, take, ◌⊎◌,
}
use pget.Chunk.{Chunk, pending}
use pget.Sink.File.{FileSink}
use pget.Sink.File.Finalize.{Answers, removed, Disk, after_calls, finalize, finalize-durable}
use pget.Sink.Stream.{
  ChunkData, returned, new_sink, submit, scan, close, lookup, delete, after_write, finish,
}
use pget.Sink.Stream.Order.{
  Stream, Reach, here, next, start, submits, scans, writes, closes, Wrote, first_chunks,
  output-first_chunks,
}
use pget.Sink.File.Placement.{byte_at}
use pget.Sink.File.AnyOrder.{write_all, write_all-source}
use pget.Sink.Stream.Delivery.{accepted_is_written, late_submission_fails}

abbrev numbered : ℕ → Chunk
numbered i = record {
  index = i;
  start = i * 2;
  length = 2;
  state = pending;
  attempts = 0;
  worker_slot = none;
  start_time = 0;
  retry_after = 0;
  bytes_recv = 0;
  last_progress = 0;
  hedged = false;
}

abbrev source : ℕ → List ℕ
source i = i ∷ i ∷ []

abbrev held : ℕ → ChunkData
held i = record { chunk = numbered i; bytes = source i }

-- A sink of 8 bytes after one step of each kind that the tests need.
abbrev submitted : Stream → ℕ → Stream
submitted s i = record s { sink = (submit s.sink (numbered i) (source i)).0 }

abbrev scanned : Stream → Stream
scanned s = record s { sink = (scan s.sink).0; writer = (scan s.sink).1 }

abbrev wrote : Stream → ℕ → Stream
wrote s i = record {
  sink = (after_write s.sink (held i) true).0;
  writer = (after_write s.sink (held i) true).1;
  output = s.output ++ source i;
}

abbrev one_taken : Stream
one_taken = scanned (submitted (submitted (start 8) 1) 0)

one_taken_reached : Reach source (start 8) one_taken
unfolding submit new_sink
one_taken_reached =
    next (next (next here (submits (numbered 1))) (submits (numbered 0))) (scans refl)

output-first_chunks_example :
    Wrote source one_taken.sink.next_index one_taken.output one_taken.writer
output-first_chunks_example = output-first_chunks source 8 one_taken one_taken_reached

abbrev only : Stream
only = submitted (start 8) 0

abbrev only_closed : Stream
only_closed = record (wrote (scanned only) 0) { sink = close (wrote (scanned only) 0).sink }

only_closed_reached : Reach source only only_closed
unfolding submit new_sink scan lookup delete after_write
only_closed_reached = next (next (next here (scans refl)) (writes (held 0) refl)) closes

accepted_is_written_example :
    (0 < only_closed.sink.next_index)
    × (only_closed.output ≡ first_chunks source only_closed.sink.next_index)
unfolding submit new_sink scan lookup delete after_write close finish
accepted_is_written_example =
    accepted_is_written source 8 (start 8) only_closed (numbered 0) here refl only_closed_reached
      refl refl

-- Chunk 0 is delivered a second time, after it was taken.
abbrev late : Stream
late = submitted (scanned only) 0

late_submission_fails_example : (scan late.sink).1 ≢ returned none
unfolding submit new_sink scan lookup delete
late_submission_fails_example =
    late_submission_fails source (scanned only) late (numbered 0) (omega arith) refl here

-- Four bytes behind a file of one byte; the second chunk is written first.
abbrev out_of_order : List (Chunk × List ℕ)
out_of_order = (numbered 1, 7 ∷ 8 ∷ []) ∷ (numbered 0, 5 ∷ 6 ∷ []) ∷ []

abbrev short_file : FileSink
short_file = record { file = 9 ∷ []; base_off = 1; has_sidecar = true; marked = [] }

file_test : (write_all short_file out_of_order).file ≡ 9 ∷ 5 ∷ 6 ∷ 7 ∷ 8 ∷ []
unfolding write_all
file_test = refl

write_all-source_example : byte_at (write_all short_file out_of_order).file 3 ≡ 7
write_all-source_example =
    write_all-source (5 ∷ 6 ∷ 7 ∷ 8 ∷ []) 2 out_of_order short_file
      ((refl, omega arith), ((refl, omega arith), tt)) (inl (omega arith, omega arith))

abbrev small_sink : FileSink
small_sink = record { file = 1 ∷ []; base_off = 0; has_sidecar = true; marked = [] }

abbrev kept_open : Answers
kept_open = record { sync = true; chtimes = true; close = false; removal = removed }

abbrev unsynced : Disk
unsynced = record { durable = false; sidecar = true }

finalize-durable_example :
    ((after_calls unsynced (take 2 (finalize small_sink (some 5) kept_open).0)).sidecar ≡ true)
    ⊎ ((after_calls unsynced (take 2 (finalize small_sink (some 5) kept_open).0)).durable ≡ true)
finalize-durable_example = finalize-durable small_sink (some 5) kept_open unsynced 2
