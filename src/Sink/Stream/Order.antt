-- ===== src/Sink/Stream/Order.antt =====
-- The stream under every interleaving of the workers and the writer.
use pget.Base.{
  ℕ, zero, suc, ◌≡◌, refl, ap, ap₂, inl, inr, true, false, List, [], ◌∷◌, ◌++◌, Option, none, some,
  arith, ◌==◌, Bool-cases, ==_iff,
}
use pget.Base.Int64.{add64, lt64}
use pget.Chunk.{Chunk}
use pget.Sink.Stream.{
  ChunkData, StreamSink, SinkError, Writer, scanning, writing, returned, lookup, delete, new_sink,
  reserve, submit, submit_checked, close, scan, scan_checked, scan_frontier, finish, after_write,
}

-- The sink, its writer, and the bytes that have gone to the destination.
pub record Stream : Type 0 where
  pub sink : StreamSink
  pub writer : Writer
  pub output : List ℕ

-- `source i` are the bytes of chunk `i`: every worker submits those. A failed write may have put out
-- any bytes `part`; the context may be cancelled while the writer waits.
pub data Step (source : ℕ → List ℕ) (s : Stream) : Stream → Type 0 where
  reserves : (n : ℕ) → Step source s (record s { sink = (reserve s.sink n).0 })
  submits : (c : Chunk) → Step source s (record s { sink = (submit s.sink c (source c.index)).0 })
  closes : Step source s (record s { sink = close s.sink })
  scans :
      s.writer ≡ scanning
      → Step source s (record s { sink = (scan s.sink).0; writer = (scan s.sink).1 })
  writes :
      (cd : ChunkData)
      → s.writer ≡ writing cd
      → Step source s (record {
        sink = (after_write s.sink cd true).0;
        writer = (after_write s.sink cd true).1;
        output = s.output ++ cd.bytes;
      })
  write_fails :
      (cd : ChunkData) (part : List ℕ)
      → s.writer ≡ writing cd
      → Step source s (record {
        sink = (after_write s.sink cd false).0;
        writer = (after_write s.sink cd false).1;
        output = s.output ++ part;
      })
  stops :
      s.writer ≡ scanning
      → Step source s (record s { writer = returned (some SinkError.cancelled) })

abbrev pub start : ℕ → Stream
start buffer_size = record { sink = new_sink buffer_size; writer = scanning; output = [] }

pub data Reach (source : ℕ → List ℕ) (s : Stream) : Stream → Type 0 where
  here : Reach source s s
  next : {t u : Stream} → Reach source s t → Step source t u → Reach source s u

-- The first `n` chunks of the source, in order.
abbrev pub first_chunks : (ℕ → List ℕ) → ℕ → List ℕ
first_chunks source zero = []
first_chunks source (suc n) = first_chunks source n ++ source n

-- Every entry of the map holds its chunk's bytes.
abbrev pub FromSource : (ℕ → List ℕ) → List (ℕ × ChunkData) → Type 0
FromSource source [] = Unit {0}
FromSource source ((i, d) ∷ m) = (d.bytes ≡ source i) × FromSource source m

-- Where the output stands, by the state of the writer.
abbrev pub Wrote : (ℕ → List ℕ) → ℕ → List ℕ → Writer → Type 0
Wrote source n out scanning = out ≡ first_chunks source n
Wrote source n out (writing cd) = out ++ cd.bytes ≡ first_chunks source n
Wrote source n out (returned none) = out ≡ first_chunks source n
Wrote source n out (returned (some e)) = Unit {0}

pub record Inv (source : ℕ → List ℕ) (s : Stream) : Type 0 where
  pub from_source : FromSource source s.sink.completed
  pub wrote : Wrote source s.sink.next_index s.output s.writer

lookup-FromSource :
    (source : ℕ → List ℕ) (k : ℕ) (m : List (ℕ × ChunkData)) (d : ChunkData)
    → FromSource source m
    → lookup k m ≡ some d
    → d.bytes ≡ source k
unfolding lookup
lookup-FromSource source k [] d h e = cc
lookup-FromSource source k ((j, x) ∷ m) d h e = elim (Bool-cases (j == k)) [
  | inl p ↦
      let same : j ≡ k = (==_iff j k).0 p in
      let it : x ≡ d = ground (arith, rw p at e) in
      cc (h.0, same, ap (λ (q : ChunkData). q.bytes) it)
  | inr p ↦ lookup-FromSource source k m d h.1 (rw p at e)
]

delete-FromSource :
    (source : ℕ → List ℕ) (k : ℕ) (m : List (ℕ × ChunkData))
    → FromSource source m
    → FromSource source (delete k m)
unfolding delete
delete-FromSource source k [] h = tt
delete-FromSource source k ((j, x) ∷ m) h = ground (arith, delete-FromSource source k m h.1)

finish-Inv :
    (source : ℕ → List ℕ) (s : StreamSink) (out : List ℕ) (m : List (ℕ × ChunkData))
    → FromSource source s.completed
    → out ≡ first_chunks source s.next_index
    → Inv source (record { sink = (finish s m).0; writer = (finish s m).1; output = out })
finish-Inv source s out [] h w = unfold finish in record { from_source = h; wrote = w }
finish-Inv source s out ((i, d) ∷ m) h w = unfold finish in record { from_source = h; wrote = tt }

scan_frontier-Inv :
    (source : ℕ → List ℕ) (s : StreamSink) (out : List ℕ) (o : Option ChunkData)
    → lookup s.next_index s.completed ≡ o
    → FromSource source s.completed
    → out ≡ first_chunks source s.next_index
    → Inv source
        (record { sink = (scan_frontier s o).0; writer = (scan_frontier s o).1; output = out })
scan_frontier-Inv source s out (some cd) e h w =
    unfold scan_frontier in
    record {
      from_source = delete-FromSource source s.next_index s.completed h;
      wrote = ap₂ ◌++◌ w (lookup-FromSource source s.next_index s.completed cd h e);
    }
scan_frontier-Inv source s out none e h w = elim (Bool-cases s.closed) [
  | inl end ↦ unfold scan_frontier in simp end (finish-Inv source s out s.completed h w)
  | inr open_yet ↦ unfold scan_frontier in rw open_yet (record { from_source = h; wrote = w })
]

scan_checked-Inv :
    (source : ℕ → List ℕ) (s : StreamSink) (out : List ℕ) (e : Option SinkError)
    → FromSource source s.completed
    → out ≡ first_chunks source s.next_index
    → Inv source
        (record { sink = (scan_checked s e).0; writer = (scan_checked s e).1; output = out })
scan_checked-Inv source s out (some e) h w =
    unfold scan_checked in record { from_source = h; wrote = tt }
scan_checked-Inv source s out none h w =
    unfold scan_checked in scan_frontier-Inv source s out _ refl h w

submit_checked-FromSource :
    (source : ℕ → List ℕ) (s : StreamSink) (c : Chunk) (e : Option SinkError)
    → FromSource source s.completed
    → FromSource source (submit_checked s c (source c.index) e).0.completed
      × ((submit_checked s c (source c.index) e).0.next_index ≡ s.next_index)
unfolding submit_checked
submit_checked-FromSource source s c (some e) h = (h, refl)
submit_checked-FromSource source s c none h =
    ground (arith, delete-FromSource source c.index s.completed h)

pub Step-Inv : {source : ℕ → List ℕ} {s t : Stream} → Step source s t → Inv source s → Inv source t
Step-Inv {source} {s} (reserves n) v =
    elim (Bool-cases (lt64 s.sink.buffer_size (add64 s.sink.reserved n))) [
      | inl e ↦ unfold reserve in rw e v
      | inr e ↦ unfold reserve in rw e (record { from_source = v.from_source; wrote = v.wrote })
    ]
Step-Inv {source} {s} (submits c) v =
    let (kept, frontier) =
      submit_checked-FromSource source s.sink c s.sink.fatal_err v.from_source in
    unfold submit in record { from_source = kept; wrote = rw frontier v.wrote }
Step-Inv {source} {s} closes v =
    unfold close in record { from_source = v.from_source; wrote = v.wrote }
Step-Inv {source} {s} (scans e) v =
    unfold scan in scan_checked-Inv source s.sink s.output _ v.from_source (rw e at v.wrote)
Step-Inv {source} {s} (writes cd e) v =
    unfold after_write in record { from_source = v.from_source; wrote = rw e at v.wrote }
Step-Inv {source} {s} (write_fails cd part e) v =
    unfold after_write in record { from_source = v.from_source; wrote = tt }
Step-Inv {source} {s} (stops e) v = record { from_source = v.from_source; wrote = tt }

pub start-Inv : (source : ℕ → List ℕ) (buffer_size : ℕ) → Inv source (start buffer_size)
start-Inv source buffer_size = unfold new_sink in record { from_source = tt; wrote = refl }

pub Reach-Inv :
    {source : ℕ → List ℕ} {s t : Stream} → Inv source s → Reach source s t → Inv source t
Reach-Inv v here = v
Reach-Inv v (next r st) = Step-Inv st (Reach-Inv v r)

-- When every submission of a chunk carries that chunk's bytes, then in every reachable state the
-- bytes written out, with those of a write that is under way, are exactly the bytes of the first
-- `next_index` chunks in order, unless the writer has returned an error.
pub output-first_chunks :
    (source : ℕ → List ℕ) (buffer_size : ℕ) (s : Stream)
    → Reach source (start buffer_size) s
    → Wrote source s.sink.next_index s.output s.writer
output-first_chunks source buffer_size s r = (Reach-Inv (start-Inv source buffer_size) r).wrote
