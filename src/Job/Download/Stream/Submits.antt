-- ===== src/Job/Download/Stream/Submits.antt =====
-- All that the workers do to the stream: they reserve, and they submit chunks with the source's bytes.
use pget.Base.{ℕ, ◌≡◌, ◌∙◌, sym, refl, ap, Bool, List, Option, none, some, get_elem?}
use pget.Chunk.{Chunk}
use pget.Chunk.Tiling.{Tiles}
use pget.Schedule.State.{Scheduler}
use pget.Schedule.Assign.{Round, stopped, fails, finished, assigned, waits, next_assignment}
use pget.Schedule.Hedge.{start_hedge}
use pget.Sink.Stream.{StreamSink, SinkError, reserve, submit}
use pget.Job.Worker.{
  Env, Dest, to_stream, Shared, Pc, top, asking, hedging, reserving, denied, failing, unhedging,
  fetching, delivering, rejected, settling, crediting, completing, ended, crashed, hedge_started,
  answered, reserved, reserve_for, with_chunk, submitted, deliver, move,
}
use pget.Job.Run.Delivered.{Claim, SharedInv, SameRanges-get}
use pget.Job.Download.Stream.Pieces.{piece_of, pieces}
use pget.Job.Download.File.{Tiles-index}

-- What one move may do to the sink.
pub data Worked (bytes_of : ℕ → List ℕ) (s : StreamSink) : StreamSink → Type 0 where
  rests : Worked bytes_of s s
  reserves : (n : ℕ) → Worked bytes_of s (reserve s n).0
  submits : (c : Chunk) → Worked bytes_of s (submit s c (bytes_of c.index)).0

-- The destination is still a stream, changed like that.
abbrev pub Turned : (ℕ → List ℕ) → StreamSink → Dest → Type 0
Turned bytes_of s dest = (s' : StreamSink) × (dest ≡ to_stream s') × Worked bytes_of s s'

module _ (bytes_of : ℕ → List ℕ) (sh : Shared) (s : StreamSink) (to : sh.dest ≡ to_stream s) where
  stays : Turned bytes_of s sh.dest
  stays = (s, to, rests)

  answered-Turned :
      (slot : ℕ) (r : Scheduler × Round) → Turned bytes_of s (answered sh slot r).0.dest
  unfolding answered
  answered-Turned slot (t, stopped) = stays
  answered-Turned slot (t, fails x) = stays
  answered-Turned slot (t, finished) = stays
  answered-Turned slot (t, assigned i) = stays
  answered-Turned slot (t, waits) = stays

  hedge_started-Turned :
      (slot i : ℕ) (o : Option (Scheduler × Option ℕ))
      → Turned bytes_of s (hedge_started sh slot i o).0.dest
  unfolding hedge_started
  hedge_started-Turned slot i none = stays
  hedge_started-Turned slot i (some (t, none)) = stays
  hedge_started-Turned slot i (some (t, some k)) = stays

  reserved-Turned :
      (slot i : ℕ) (r : StreamSink × Option SinkError)
      → Worked bytes_of s r.0
      → Turned bytes_of s (reserved sh slot i r).0.dest
  unfolding reserved
  reserved-Turned slot i (t, none) h = (t, refl, h)
  reserved-Turned slot i (t, some e) h = (t, refl, h)

  reserve_for-Turned :
      (slot i : ℕ) (c : Chunk) → Turned bytes_of s (reserve_for sh slot i c sh.dest).0.dest
  reserve_for-Turned slot i c =
      rw to (unfold reserve_for in reserved-Turned slot i (reserve s c.length) (reserves c.length))

  submitted-Turned :
      (slot i : ℕ) (hedge : Bool) (n : ℕ) (r : StreamSink × Option SinkError)
      → Worked bytes_of s r.0
      → Turned bytes_of s (submitted sh slot i hedge n r).0.dest
  unfolding submitted
  submitted-Turned slot i hedge n (t, none) h = (t, refl, h)
  submitted-Turned slot i hedge n (t, some e) h = (t, refl, h)

  deliver-Turned :
      (env : Env) (slot i : ℕ) (hedge : Bool) (c : Chunk) (payload : List ℕ)
      → payload ≡ bytes_of c.index
      → Turned bytes_of s (deliver env sh slot hedge c payload i sh.dest).0.dest
  deliver-Turned env slot i hedge c payload e =
      rw (to, e)
        (unfold deliver in
          submitted-Turned slot i hedge _ (submit s c (bytes_of c.index)) (submits c))

  with_chunk-Turned :
      (o : Option Chunk) (f : Chunk → Shared × Pc)
      → ((c : Chunk) → o ≡ some c → Turned bytes_of s (f c).0.dest)
      → Turned bytes_of s (with_chunk sh o f).0.dest
  unfolding with_chunk
  with_chunk-Turned none f h = stays
  with_chunk-Turned (some c) f h = h c refl

module _ (planned : List Chunk) (source : List ℕ) (split size : ℕ)
    (tiles : Tiles split size 0 0 planned) (env : Env) (sh : Shared)
    (v : SharedInv planned source 0 sh.sched sh.dest) where
  -- A worker that delivers has the bytes that the chunk's index stands for.
  delivering-pieces :
      (slot i : ℕ) (hedge : Bool) (payload : List ℕ) (c : Chunk)
      → Claim planned source 0 sh.dest (delivering slot i hedge payload)
      → get_elem? sh.sched.chunks i ≡ some c
      → payload ≡ pieces source planned c.index
  delivering-pieces slot i hedge payload c claim at =
      let (x, at_x, ix, _, _) = SameRanges-get planned sh.sched.chunks i c v.ranges at in
      let here : c.index ≡ i = ix ∙ Tiles-index split size planned i x tiles at_x in
      (claim x at_x).0 ∙ sym (ap (piece_of source) (ap (get_elem? planned) here ∙ at_x))

  pub move-Turned :
      (s : StreamSink) (pc : Pc)
      → sh.dest ≡ to_stream s
      → Claim planned source 0 sh.dest pc
      → Turned (pieces source planned) s (move env sh pc).0.dest
  unfolding move
  move-Turned s (top slot) to claim = stays _ sh s to
  move-Turned s (asking slot) to claim =
      answered-Turned _ sh s to slot (next_assignment sh.sched env.now slot)
  move-Turned s (hedging slot i) to claim =
      hedge_started-Turned _ sh s to slot i (start_hedge sh.sched env.now i)
  move-Turned s (reserving slot i) to claim =
      with_chunk-Turned _ sh s to (get_elem? sh.sched.chunks i) _
        (λ c at. reserve_for-Turned _ sh s to slot i c)
  move-Turned s (denied slot i) to claim = stays _ sh s to
  move-Turned s (failing slot i) to claim =
      with_chunk-Turned _ sh s to (get_elem? sh.sched.chunks i) _ (λ c at. stays _ sh s to)
  move-Turned s (unhedging slot i) to claim =
      with_chunk-Turned _ sh s to (get_elem? sh.sched.chunks i) _ (λ c at. stays _ sh s to)
  move-Turned s (fetching slot i hedge) to claim =
      with_chunk-Turned _ sh s to (get_elem? sh.sched.chunks i) _ (λ c at. stays _ sh s to)
  move-Turned s (delivering slot i hedge payload) to claim =
      with_chunk-Turned _ sh s to (get_elem? sh.sched.chunks i) _ (λ c at.
        deliver-Turned _ sh s to env slot i hedge c payload
          (delivering-pieces slot i hedge payload c claim at))
  move-Turned s (rejected i e) to claim =
      with_chunk-Turned _ sh s to (get_elem? sh.sched.chunks i) _ (λ c at. stays _ sh s to)
  move-Turned s (settling slot i n) to claim =
      with_chunk-Turned _ sh s to (get_elem? sh.sched.chunks i) _ (λ c at. stays _ sh s to)
  move-Turned s (crediting slot i n) to claim =
      with_chunk-Turned _ sh s to (get_elem? sh.sched.chunks i) _ (λ c at. stays _ sh s to)
  move-Turned s (completing slot i) to claim =
      with_chunk-Turned _ sh s to (get_elem? sh.sched.chunks i) _ (λ c at. stays _ sh s to)
  move-Turned s (ended o) to claim = stays _ sh s to
  move-Turned s crashed to claim = stays _ sh s to
