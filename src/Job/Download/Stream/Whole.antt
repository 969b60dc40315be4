-- ===== src/Job/Download/Stream/Whole.antt =====
-- The whole of a download to the standard output.
use pget.Base.{
  ℕ, zero, suc, ◌+◌, ◌≤◌, ◌<◌, ◌≡◌, ◌∙◌, sym, refl, ap, subst, inl, inr, Bool, true, false, List,
  [], ◌∷◌, Option, none, some, arith, length, get_elem?, ◌==◌, ltb, Bool-cases, take,
  get_elem?-some, ltb→lt,
}
use pget.Base.Int64.{half}
use pget.Cli.{ExecutionPlan}
use pget.Chunk
use pget.Chunk.{Chunk}
use pget.Chunk.Tiling.{Tiles, plan-Tiles}
use pget.Schedule.State.{Scheduler, new, is_completed}
use pget.Schedule.Counts.{PendingFrom}
use pget.Schedule.Steps.{IsContiguous, new-Inv}
use pget.Schedule.Tally.{Inv-Tally}
use pget.Sink.Stream.{StreamSink, SinkError, returned, new_sink}
use pget.Sink.Stream.Order
use pget.Sink.Stream.Order.{first_chunks}
use pget.Sink.Stream.Delivery.{IsKept, not-IsKey-nil}
use pget.Job.Exit.{exit_success, exit_io_error}
use pget.Job.Worker.{to_stream, WorkerError}
use pget.Job.Run.{launch}
use pget.Job.Run.Delivered.{IsDelivered, SameRanges-refl, SharedInv}
use pget.Job.Run.Safety.{all-IsDelivered}
use pget.Job.Download.{stream_config, run_code, finish_stream}
use pget.Job.Download.File.{Tiles-laid, Tiles-index, new-chunks, launch-Inv, run_code-succeeds}
use pget.Job.Download.Stream.{Piped, PipedReach, launch_piped}
use pget.Job.Download.Stream.Pieces.{pieces, first_chunks-whole, Tiles-pending}
use pget.Job.Download.Stream.Invariant.{PipedInv, PipedReach-Inv}

abbrev pub failed : Option SinkError → Bool
failed none = false
failed (some e) = true

finish_stream-succeeds :
    (code : ℕ) (o : Option SinkError)
    → finish_stream code (failed o) ≡ exit_success
    → (code ≡ exit_success) × (o ≡ none)
unfolding finish_stream
finish_stream-succeeds code none e = (e, refl)
finish_stream-succeeds code (some x) e = absurd (elim (Bool-cases (code == exit_success)) [
  | inl p ↦ let q : exit_io_error ≡ exit_success = rw p at e in ground (arith, q)
  | inr p ↦ ground (arith, p, rw p at e)
])

PendingFrom-IsContiguous : (cs : List Chunk) → PendingFrom zero cs → IsContiguous cs
PendingFrom-IsContiguous [] h = tt
PendingFrom-IsContiguous (c ∷ cs) h = inr h

not_completed :
    (cs : List Chunk) (i : ℕ) (c : Chunk)
    → PendingFrom zero cs
    → get_elem? cs i ≡ some c
    → is_completed c.state ≡ true
    → ⊥
not_completed [] i c h e d = absurd (ground (arith, e))
not_completed (x ∷ cs) zero c h e d = absurd (ground (arith, h.0, e, d))
not_completed (x ∷ cs) (suc i) c h e d = not_completed cs i c h.1 e d

launch_piped-Inv :
    (n : ℕ) (planned : List Chunk) (source : List ℕ) (s : Scheduler) (buffer_size : ℕ)
    → SharedInv planned source 0 s (to_stream (new_sink buffer_size))
    → PipedInv n planned source (launch_piped s buffer_size) (new_sink buffer_size)
unfolding launch_piped launch
launch_piped-Inv n planned source s buffer_size v = record {
  workers = unfold launch in launch-Inv planned source 0 s (to_stream (new_sink buffer_size)) v;
  to = refl;
  order = Order.start-Inv (pieces source planned) buffer_size;
  closed_late = λ c. absurd (unfold new_sink in ground (arith, c));
  settled = λ r. absurd (ground (arith, r));
}

-- What the workers start with.
started-SharedInv :
    (plan : ExecutionPlan) (size : ℕ) (source : List ℕ) (cs : List Chunk) (s : Scheduler)
    → Tiles plan.split_size size 0 0 cs
    → new (stream_config plan) cs true ≡ some s
    → SharedInv cs source 0 s (to_stream (new_sink plan.buffer_size))
started-SharedInv plan size source cs s tiles made =
    let idle = Tiles-pending plan.split_size size 0 0 cs tiles in
    let table = new-chunks (stream_config plan) cs true s made in
    record {
      tally =
          Inv-Tally s 0
            (new-Inv (stream_config plan) cs true s (PendingFrom-IsContiguous cs idle) made);
      ranges = rw table (SameRanges-refl cs);
      done = λ i c at d. absurd (not_completed cs i c idle (rw table at at) d);
      based = tt;
    }

-- When all chunks are delivered and the map is empty, the frontier has passed them all.
all_written :
    (n split size : ℕ) (source : List ℕ) (cs : List Chunk) (p : Piped) (t : StreamSink)
    → Tiles split size 0 0 cs
    → PipedInv n cs source p t
    → t.completed ≡ []
    → length p.workers.shared.sched.chunks ≤ p.workers.shared.sched.completed_count
    → length cs ≤ t.next_index
all_written n split size source cs p t tiles v empty all =
    elim (Bool-cases (ltb t.next_index (length cs))) [
      | inr e ↦ ground arith
      | inl e ↦
          let (c, at) = get_elem?-some cs t.next_index (ltb→lt _ _ e) in
          let whole : IsDelivered source 0 p.workers.shared.dest c =
            all-IsDelivered cs source 0 p.workers.shared.sched p.workers.shared.dest t.next_index c
              v.workers.shared all at in
          let kept : IsKept c.index t = rw v.to at whole in
          absurd (elim kept [
            | inl lt ↦ omega (arith, lt, Tiles-index split size cs t.next_index c tiles at)
            | inr key ↦ not-IsKey-nil c.index t.completed empty key
          ])
    ]

-- A download to the standard output that exits with success has written exactly the first `size` bytes
-- of the source, in whatever order the workers, their duplicates and the writer moved. The conditions
-- are: a positive size and split size, together at most 2^63, replies that are those of one unchanged
-- source, and that the writer has ended.
pub download_stream-source :
    (order : List ℕ) (plan : ExecutionPlan) (size : ℕ) (source : List ℕ)
    (describe : WorkerError → List ℕ) (cs : List Chunk) (s : Scheduler) (p : Piped)
    (o : Option SinkError)
    → 0 < size
    → 0 < plan.split_size
    → size + plan.split_size ≤ half
    → Chunk.plan plan.split_size size ≡ some cs
    → new (stream_config plan) cs true ≡ some s
    → PipedReach plan.connections source (launch_piped s plan.buffer_size) p
    → p.writer ≡ returned o
    → finish_stream (run_code describe order p.workers) (failed o) ≡ exit_success
    → p.output ≡ take size source
download_stream-source order plan size source describe cs s p o positive pos small planned made r
      ended ok =
    let (cs', e, tiles', _) = plan-Tiles plan.split_size size pos small positive in
    let same : cs' ≡ cs = ap (λ o. elim o [ none ↦ cs | some t ↦ t ]) (sym e ∙ planned) in
    let tiles = subst (λ t. Tiles plan.split_size size 0 0 t) same tiles' in
    let (t, v) =
      PipedReach-Inv plan.connections cs source plan.split_size size tiles
        (Tiles-laid plan.split_size size 0 cs (omega arith) tiles) r _
        (launch_piped-Inv plan.connections cs source s plan.buffer_size
          (started-SharedInv plan size source cs s tiles made)) in
    let (worked, clean) = finish_stream-succeeds (run_code describe order p.workers) o ok in
    let end : p.writer ≡ returned none = ended ∙ ap returned clean in
    let enough =
      all_written plan.connections plan.split_size size source cs p t tiles v (v.settled end).1
        (run_code-succeeds describe order p.workers worked) in
    let out : p.output ≡ first_chunks (pieces source cs) t.next_index =
      subst (Order.Wrote (pieces source cs) t.next_index p.output) end v.order.wrote in
    out ∙ first_chunks-whole plan.split_size size source cs t.next_index tiles enough
