-- ===== src/Job/Run/Moves.antt =====
-- Every move of a worker keeps what the shared state promises.
use pget.Base.{
  ℕ, ◌+◌, ◌<◌, ◌≡◌, ◌∙◌, sym, refl, ap₂, subst, inl, inr, Bool, true, false, List, Option, none,
  some, arith, length, take, drop, get_elem?, ◌==◌, Bool-cases, ==_iff, get_elem?-modify_ne,
  some-inj,
}
use pget.Base.Int64.{half}
use pget.Chunk.{Chunk}
use pget.Schedule.Assign.{next_assignment}
use pget.Schedule.Report.{mark_complete, set_completed, on_worker_success}
use pget.Schedule.Hedge.{start_hedge}
use pget.Schedule.Evolve.{
  Evolves-refl, next_assignment-Evolves, mark_failed-Evolves, on_admission_failure-chunks,
  start_hedge-Evolves, cancel_hedge-chunks, mark_complete-chunks,
}
use pget.Schedule.Tally.{
  next_assignment-Tally, mark_complete-Tally, mark_failed-Tally, on_admission_failure-Tally,
  on_worker_success-Tally, start_hedge-Tally, cancel_hedge-Tally,
}
use pget.Sink.Stream.{StreamSink, SinkError, reserve}
use pget.Sink.Stream.Delivery.{reserve-Keeps}
use pget.Job.Worker.{
  Fetch, refused, broken, body, Env, Dest, to_file, to_stream, Shared, Pc, top, asking, hedging,
  reserving, denied, failing, unhedging, fetching, delivering, rejected, settling, crediting,
  completing, ended, crashed, fetched, look_ahead, reserved, reserve_for, deliver, move,
  context_done,
}
use pget.Job.Run.{IsReply, Serves}
use pget.Job.Run.Delivered.{
  IsDeliveredAt, Claim, piece, SameRanges-get, SameRanges-set_completed, SharedInv,
  evolve-SharedInv,
}
use pget.Job.Run.Sinks.{Preserves, deliver-Delivers}
use pget.Job.Run.Changes.{
  Moved, schedules-Moved, rests-Moved, look_ahead-Moved, answered-Moved, hedge_started-Moved,
  with_chunk-Moved, redirect-SharedInv, unchanged-Moved,
}

module _ (planned : List Chunk) (source : List ℕ) (base : ℕ)
    (laid : (i : ℕ) (c : Chunk)
      → get_elem? planned i ≡ some c
      → (base + c.start < half) × (c.index ≡ i))
    (env : Env) (sh : Shared) (serves : Serves source env)
    (v : SharedInv planned source base sh.sched sh.dest) where
  reserved-Moved :
      (slot i : ℕ) (s : StreamSink) (r : StreamSink × Option SinkError)
      → Preserves planned source base sh.dest (to_stream r.0)
      → Moved planned source base sh.dest (reserved sh slot i r)
  unfolding reserved
  reserved-Moved slot i s (s', none) k = record {
    inv = redirect-SharedInv sh v (to_stream s') tt k;
    preserves = k;
    claim = tt;
  }
  reserved-Moved slot i s (s', some e) k = record {
    inv = redirect-SharedInv sh v (to_stream s') tt k;
    preserves = k;
    claim = tt;
  }

  reserve_for-Moved :
      (slot i : ℕ) (c : Chunk) (dest : Dest)
      → sh.dest ≡ dest
      → Moved planned source base sh.dest (reserve_for sh slot i c dest)
  reserve_for-Moved slot i c (to_file s) e =
      unfold reserve_for in rests-Moved sh v (fetching slot i false) tt
  reserve_for-Moved slot i c (to_stream s) e =
      let kept : Preserves planned source base sh.dest (to_stream (reserve s c.length).0) =
        subst (λ d. Preserves planned source base d (to_stream (reserve s c.length).0)) (sym e)
          (λ x h. (reserve-Keeps s c.length x.index).0 h) in
      unfold reserve_for in reserved-Moved slot i s (reserve s c.length) kept

  -- The planned chunk has the table's range, so its bytes are those that were requested.
  fetched-Piece :
      (i : ℕ) (c : Chunk) (payload : List ℕ)
      → get_elem? sh.sched.chunks i ≡ some c
      → payload ≡ piece source c
      → length payload ≡ c.length
      → (x : Chunk) → get_elem? planned i ≡ some x
      → (payload ≡ piece source x) × (length payload ≡ x.length)
  fetched-Piece i c payload at right full x at' =
      let (y, at_y, ix, st, len) = SameRanges-get planned sh.sched.chunks i c v.ranges at in
      let same : y ≡ x = some-inj (sym at_y ∙ at') in
      subst (λ z. (payload ≡ piece source z) × (length payload ≡ z.length)) same
        (right ∙ ap₂ (λ n k. take n (drop k source)) len st, full ∙ len)

  -- The reply to a request for the chunk at a position.
  fetched-Claim :
      (slot i : ℕ) (hedge : Bool) (c : Chunk) (reply : Fetch)
      → get_elem? sh.sched.chunks i ≡ some c
      → IsReply source c.start c.length reply
      → Claim planned source base sh.dest (fetched slot i hedge reply)
  fetched-Claim slot i true c refused at ok = unfold fetched in tt
  fetched-Claim slot i false c refused at ok = unfold fetched in tt
  fetched-Claim slot i true c broken at ok = unfold fetched in tt
  fetched-Claim slot i false c broken at ok = unfold fetched in tt
  fetched-Claim slot i true c (body payload) at (right, full) =
      unfold fetched in fetched-Piece i c payload at right full
  fetched-Claim slot i false c (body payload) at (right, full) =
      unfold fetched in fetched-Piece i c payload at right full

  deliver-Moved :
      (slot i : ℕ) (hedge : Bool) (payload : List ℕ) (c : Chunk)
      → Claim planned source base sh.dest (delivering slot i hedge payload)
      → get_elem? sh.sched.chunks i ≡ some c
      → Moved planned source base sh.dest (deliver env sh slot hedge c payload i sh.dest)
  deliver-Moved slot i hedge payload c claim at =
      let (x, at_x, ix, st, len) = SameRanges-get planned sh.sched.chunks i c v.ranges at in
      let (right, full) = claim x at_x in
      let d =
        deliver-Delivers planned source base env sh slot hedge x c payload i sh.dest at_x ix st len
          right full (laid i x at_x).0 v.based in
      record {
        inv =
            subst
              (λ s.
                SharedInv planned source base s
                  (deliver env sh slot hedge c payload i sh.dest).0.dest)
              (sym d.same_sched) (redirect-SharedInv sh v _ d.based d.preserves);
        preserves = d.preserves;
        claim = d.claim;
      }

  marked-Moved :
      (slot i : ℕ)
      → IsDeliveredAt planned source base sh.dest i
      → Moved planned source base sh.dest
          (record sh { sched = mark_complete sh.sched env.now i }, top slot)
  marked-Moved slot i claim = record {
    inv = record {
      tally = mark_complete-Tally sh.sched env.now i v.tally;
      ranges = elim (mark_complete-chunks sh.sched env.now i) [
        | inl same ↦ rw same v.ranges
        | inr set ↦ rw set (SameRanges-set_completed planned sh.sched.chunks i v.ranges)
      ];
      done = λ j c at d. elim (mark_complete-chunks sh.sched env.now i) [
        | inl same ↦ v.done j c (rw same at at) d
        | inr set ↦ elim (Bool-cases (i == j)) [
          | inl here ↦ subst (IsDeliveredAt planned source base sh.dest) ((==_iff i j).0 here) claim
          | inr there ↦
              v.done j c
                (sym (
                    get_elem?-modify_ne sh.sched.chunks i j set_completed
                      (λ p. ground (arith, there, p)))
                  ∙ rw set at at)
                d
        ]
      ];
      based = v.based;
    };
    preserves = λ c h. h;
    claim = tt;
  }

  -- The chunk's index is its position.
  completing-Moved :
      (slot i : ℕ) (c : Chunk)
      → IsDeliveredAt planned source base sh.dest i
      → get_elem? sh.sched.chunks i ≡ some c
      → Moved planned source base sh.dest
          (record sh { sched = mark_complete sh.sched env.now c.index }, top slot)
  completing-Moved slot i c claim at =
      let (x, at_x, ix, _, _) = SameRanges-get planned sh.sched.chunks i c v.ranges at in
      rw (ix ∙ (laid i x at_x).1) (marked-Moved slot i claim)

  crediting-Moved :
      (slot i n : ℕ) (c : Chunk)
      → IsDeliveredAt planned source base sh.dest i
      → Moved planned source base sh.dest (
        record sh {
          sched = on_worker_success sh.sched env.now slot c.length env.elapsed;
          progress_bytes = sh.progress_bytes + n;
        },
        completing slot i,
      )
  crediting-Moved slot i n c claim = record {
    inv =
        evolve-SharedInv planned source base sh.sched _ sh.dest v
          (on_worker_success-Tally sh.sched env.now slot c.length env.elapsed v.tally)
          (unfold on_worker_success in Evolves-refl sh.sched.chunks);
    preserves = λ c h. h;
    claim = claim;
  }

  pub move-Moved :
      (pc : Pc)
      → Claim planned source base sh.dest pc
      → Moved planned source base sh.dest (move env sh pc)
  unfolding move
  move-Moved (top slot) claim = elim (Bool-cases env.interrupted) [
    | inl e ↦ rw e (rests-Moved sh v (ended (some context_done)) tt)
    | inr e ↦ rw e (
        rests-Moved sh v (look_ahead env sh.sched slot sh.dest)
          (look_ahead-Moved sh v env slot sh.dest))
  ]
  move-Moved (asking slot) claim =
      answered-Moved sh v slot (next_assignment sh.sched env.now slot)
        (next_assignment-Tally sh.sched env.now slot v.tally)
        (next_assignment-Evolves sh.sched env.now slot)
  move-Moved (hedging slot i) claim =
      hedge_started-Moved sh v slot i (start_hedge sh.sched env.now i)
        (start_hedge-Tally sh.sched env.now i v.tally) (start_hedge-Evolves sh.sched env.now i)
  move-Moved (reserving slot i) claim =
      with_chunk-Moved sh v (get_elem? sh.sched.chunks i) _
        (λ c at. reserve_for-Moved slot i c sh.dest refl)
  move-Moved (denied slot i) claim =
      unchanged-Moved sh v _ (failing slot i)
        (on_admission_failure-Tally sh.sched env.now slot v.tally)
        (on_admission_failure-chunks sh.sched env.now slot) tt
  move-Moved (failing slot i) claim = with_chunk-Moved sh v (get_elem? sh.sched.chunks i) _ (λ c at.
      schedules-Moved sh v _ (top slot) (mark_failed-Tally sh.sched env.now c.index true v.tally)
        (mark_failed-Evolves sh.sched env.now c.index true) tt)
  move-Moved (unhedging slot i) claim =
      with_chunk-Moved sh v (get_elem? sh.sched.chunks i) _ (λ c at.
        unchanged-Moved sh v _ (top slot) (cancel_hedge-Tally sh.sched c.index v.tally)
          (cancel_hedge-chunks sh.sched c.index) tt)
  move-Moved (fetching slot i hedge) claim =
      with_chunk-Moved sh v (get_elem? sh.sched.chunks i) _ (λ c at.
        rests-Moved sh v (fetched slot i hedge (env.fetch c.start c.length))
          (fetched-Claim slot i hedge c (env.fetch c.start c.length) at (serves c.start c.length)))
  move-Moved (delivering slot i hedge payload) claim =
      with_chunk-Moved sh v (get_elem? sh.sched.chunks i) _
        (λ c at. deliver-Moved slot i hedge payload c claim at)
  move-Moved (rejected i e) claim = with_chunk-Moved sh v (get_elem? sh.sched.chunks i) _ (λ c at.
      schedules-Moved sh v _ (ended (some e))
        (mark_failed-Tally sh.sched env.now c.index false v.tally)
        (mark_failed-Evolves sh.sched env.now c.index false) tt)
  move-Moved (settling slot i n) claim =
      with_chunk-Moved sh v (get_elem? sh.sched.chunks i) _ (λ c at.
        unchanged-Moved sh v _ (crediting slot i n) (cancel_hedge-Tally sh.sched c.index v.tally)
          (cancel_hedge-chunks sh.sched c.index) claim)
  move-Moved (crediting slot i n) claim =
      with_chunk-Moved sh v (get_elem? sh.sched.chunks i) _
        (λ c at. crediting-Moved slot i n c claim)
  move-Moved (completing slot i) claim =
      with_chunk-Moved sh v (get_elem? sh.sched.chunks i) _
        (λ c at. completing-Moved slot i c claim at)
  move-Moved (ended o) claim = rests-Moved sh v (ended o) tt
  move-Moved crashed claim = rests-Moved sh v crashed tt
