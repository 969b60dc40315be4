-- ===== src/Job/Download/Stream/Invariant.antt =====
-- What every reachable state of the workers with their writer satisfies.
use pget.Base.{
  ℕ, ◌+◌, ◌<◌, ◌≡◌, ◌∙◌, sym, refl, ap, subst, inl, inr, true, false, List, [], ◌∷◌, none, some,
  arith, get_elem?, ◌==◌, Bool-cases, Option-cases, length,
}
use pget.Base.Int64.{half, add64, lt64}
use pget.Chunk.{Chunk}
use pget.Chunk.Tiling.{Tiles}
use pget.Sink.Stream.{
  ChunkData, StreamSink, returned, lookup, reserve, submit, close, scan, finish, after_write,
}
use pget.Sink.Stream.Order
use pget.Sink.Stream.Order.{Stream}
use pget.Sink.Stream.Delivery.{IsKept, scan-Keeps, scan-empty}
use pget.Job.Worker.{Env, to_stream, Shared, Pc, move}
use pget.Job.Run.{Workers, Step, works, cancels}
use pget.Job.Run.Sinks.{Preserves}
use pget.Job.Run.Changes.{redirect-SharedInv}
use pget.Job.Run.Safety.{Inv, Claim-Preserves, Step-Inv}
use pget.Job.Download.Stream.{
  Piped, with_sink, IsEnded, PipedStep, progresses, scans, writes, write_fails, stops, closes,
  PipedReach, here, next,
}
use pget.Job.Download.Stream.Pieces.{pieces}
use pget.Job.Download.Stream.Submits.{Worked, rests, reserves, submits, move-Turned}

to_stream-inj : {s t : StreamSink} → to_stream s ≡ to_stream t → s ≡ t
to_stream-inj e = cc

-- The sink is closed by `close` only.
Worked-closed :
    {bytes_of : ℕ → List ℕ} {s t : StreamSink} → Worked bytes_of s t → t.closed ≡ s.closed
Worked-closed rests = refl
Worked-closed {s = s} (reserves n) = elim (Bool-cases (lt64 s.buffer_size (add64 s.reserved n))) [
  | inl e ↦ unfold reserve in rw e refl
  | inr e ↦ unfold reserve in rw e refl
]
Worked-closed {bytes_of} {s} (submits c) = elim (Option-cases s.fatal_err) [
  | inl e ↦ elim (Bool-cases (length (bytes_of c.index) == c.length)) [
    | inl p ↦ unfold submit in rw (e, p) refl
    | inr p ↦ unfold submit in rw (e, p) refl
  ]
  | inr (x, e) ↦ unfold submit in rw e refl
]

finish-same :
    (s : StreamSink) (m : List (ℕ × ChunkData))
    → ((finish s m).0.completed ≡ s.completed) × ((finish s m).0.closed ≡ s.closed)
unfolding finish
finish-same s [] = (refl, refl)
finish-same s (x ∷ m) = (refl, refl)

-- Where the scan has gone, when it takes no chunk: nothing has changed but the error.
scan-same :
    (s : StreamSink)
    → lookup s.next_index s.completed ≡ none
    → ((scan s).0.completed ≡ s.completed) × ((scan s).0.closed ≡ s.closed)
scan-same s l = elim (Option-cases s.fatal_err) [
  | inl e ↦ elim (Bool-cases s.closed) [
    | inl p ↦
        let (kept, shut) = finish-same s s.completed in
        unfold scan in simp (e, l, p) (kept, shut ∙ p)
    | inr p ↦ unfold scan in simp (e, l, p) (refl, refl)
  ]
  | inr (x, e) ↦ unfold scan in rw e (refl, refl)
]

scan-closed : (s : StreamSink) → (scan s).0.closed ≡ s.closed
scan-closed s = elim (Option-cases (lookup s.next_index s.completed)) [
  | inl l ↦ (scan-same s l).1
  | inr (cd, l) ↦ elim (Option-cases s.fatal_err) [
    | inl e ↦ unfold scan in simp (e, l) refl
    | inr (x, e) ↦ unfold scan in rw e refl
  ]
]

-- The writer ends without an error in a sink that is closed and empty, and leaves it so.
scan-returns :
    (s : StreamSink) → (scan s).1 ≡ returned none → (s.closed ≡ true) × ((scan s).0.completed ≡ [])
scan-returns s h =
    let empty = scan-empty s h in
    let l : lookup s.next_index s.completed ≡ none = rw empty (unfold lookup in refl) in
    (
      elim (Bool-cases s.closed) [
        | inl p ↦ p
        | inr p ↦ elim (Option-cases s.fatal_err) [
          | inl e ↦ absurd (unfold scan in ground (arith, e, l, p, h))
          | inr (x, e) ↦ absurd (unfold scan in ground (arith, e, h))
        ]
      ],
      (scan-same s l).0 ∙ empty,
    )

abbrev pub IsEmptied : StreamSink → Type 0
IsEmptied sink = (sink.closed ≡ true) × (sink.completed ≡ [])

abbrev stream_of : Piped → StreamSink → Stream
stream_of p sink = record { sink = sink; writer = p.writer; output = p.output }

module _ (n : ℕ) (planned : List Chunk) (source : List ℕ) where
  pub record PipedInv (p : Piped) (sink : StreamSink) : Type 0 where
    pub workers : Inv planned source 0 p.workers
    pub to : p.workers.shared.dest ≡ to_stream sink
    pub order : Order.Inv (pieces source planned) (stream_of p sink)
    pub closed_late : sink.closed ≡ true → (i : ℕ) → i < n → IsEnded (p.workers.pcs i)
    pub settled : p.writer ≡ returned none → IsEmptied sink

  at_sink :
      (p : Piped) (s t : StreamSink)
      → PipedInv p s
      → p.workers.shared.dest ≡ to_stream t
      → PipedInv p t
  at_sink p s t v e = subst (PipedInv p) (to_stream-inj (sym v.to ∙ e)) v

  -- The workers do not notice what the writer does.
  with_sink-Inv :
      (w : Workers) (s t : StreamSink)
      → Inv planned source 0 w
      → w.shared.dest ≡ to_stream s
      → ((k : ℕ) → IsKept k s → IsKept k t)
      → Inv planned source 0 (with_sink w t)
  with_sink-Inv w s t v to keeps =
      let kept : Preserves planned source 0 w.shared.dest (to_stream t) =
        rw to (λ c h. keeps c.index h) in
      record {
        shared = redirect-SharedInv w.shared v.shared (to_stream t) tt kept;
        claims = λ k.
            Claim-Preserves planned source 0 w.shared.dest (to_stream t) (w.pcs k) kept
              (v.claims k);
      }

  Worked-Inv :
      (p : Piped) (s t : StreamSink)
      → Worked (pieces source planned) s t
      → Order.Inv (pieces source planned) (stream_of p s)
      → Order.Inv (pieces source planned) (stream_of p t)
  Worked-Inv p s _ rests v = v
  Worked-Inv p s _ (reserves k) v = Order.Step-Inv (Order.reserves k) v
  Worked-Inv p s _ (submits c) v = Order.Step-Inv (Order.submits c) v

  -- When all have ended, a move changes nothing.
  ended-move : (env : Env) (sh : Shared) (pc : Pc) → IsEnded pc → move env sh pc ≡ (sh, pc)
  ended-move env sh pc (o, e) = rw e (unfold move in refl)

  module _ (split size : ℕ) (tiles : Tiles split size 0 0 planned)
      (laid : (i : ℕ) (c : Chunk)
        → get_elem? planned i ≡ some c
        → (0 + c.start < half) × (c.index ≡ i)) where
    works-PipedInv :
        (p : Piped) (s : StreamSink) {w : Workers}
        → Step n source p.workers w
        → PipedInv p s
        → (t : StreamSink) × PipedInv (record p { workers = w }) t
    works-PipedInv p s (works i env lt serves) v =
        let (t, to, did) =
          move-Turned planned source split size tiles env p.workers.shared v.workers.shared s
            (p.workers.pcs i) v.to (v.workers.claims i) in
        let late : t.closed ≡ true → (k : ℕ) → k < n → IsEnded (p.workers.pcs k) =
          λ c. v.closed_late (sym (Worked-closed did) ∙ c) in
        (
          t,
          record {
            workers = Step-Inv planned source 0 laid (works i env lt serves) v.workers;
            to = to;
            order = Worked-Inv p s t did v.order;
            closed_late = λ c k l. elim (Bool-cases (i == k)) [
              | inl e ↦
                  let end = late c i lt in
                  rw (e, ended-move env p.workers.shared (p.workers.pcs i) end) end
              | inr e ↦ rw e (late c k l)
            ];
            settled = λ r.
                let (shut, empty) = v.settled r in
                let still =
                  ended-move env p.workers.shared (p.workers.pcs i) (v.closed_late shut i lt) in
                let same : s ≡ t = to_stream-inj (sym v.to ∙ sym (ap (λ m. m.0.dest) still) ∙ to) in
                subst IsEmptied same (shut, empty);
          },
        )
    works-PipedInv p s cancels v = (
      s,
      record {
        workers = Step-Inv planned source 0 laid {n = n} cancels v.workers;
        to = v.to;
        order = v.order;
        closed_late = v.closed_late;
        settled = v.settled;
      },
    )

    pub PipedStep-Inv :
        {p q : Piped}
        → PipedStep n source p q
        → (s : StreamSink) → PipedInv p s
        → (t : StreamSink) × PipedInv q t
    PipedStep-Inv {p} (progresses st) s v = works-PipedInv p s st v
    PipedStep-Inv {p} (scans t to idle) s v0 =
        let v = at_sink p s t v0 to in
        (
          (scan t).0,
          record {
            workers = with_sink-Inv p.workers t (scan t).0 v.workers to (λ k. (scan-Keeps t k).0);
            to = refl;
            order = Order.Step-Inv (Order.scans idle) v.order;
            closed_late = λ c. v.closed_late (sym (scan-closed t) ∙ c);
            settled = λ r. let (shut, empty) = scan-returns t r in (scan-closed t ∙ shut, empty);
          },
        )
    PipedStep-Inv {p} (writes t cd to busy) s v0 =
        let v = at_sink p s t v0 to in
        (
          (after_write t cd true).0,
          record {
            workers =
                with_sink-Inv p.workers t (after_write t cd true).0 v.workers to
                  (λ k h. unfold after_write in h);
            to = refl;
            order = Order.Step-Inv (Order.writes cd busy) v.order;
            closed_late = unfold after_write in v.closed_late;
            settled = λ r. absurd (unfold after_write in ground (arith, r));
          },
        )
    PipedStep-Inv {p} (write_fails t cd part to busy) s v0 =
        let v = at_sink p s t v0 to in
        (
          (after_write t cd false).0,
          record {
            workers =
                with_sink-Inv p.workers t (after_write t cd false).0 v.workers to
                  (λ k h. unfold after_write in h);
            to = refl;
            order = Order.Step-Inv (Order.write_fails cd part busy) v.order;
            closed_late = unfold after_write in v.closed_late;
            settled = λ r. absurd (unfold after_write in ground (arith, r));
          },
        )
    PipedStep-Inv {p} (stops idle) s v = (
      s,
      record {
        workers = v.workers;
        to = v.to;
        order = Order.Step-Inv (Order.stops idle) v.order;
        closed_late = v.closed_late;
        settled = λ r. absurd (ground (arith, r));
      },
    )
    PipedStep-Inv {p} (closes t to all) s v0 =
        let v = at_sink p s t v0 to in
        (
          close t,
          record {
            workers = with_sink-Inv p.workers t (close t) v.workers to (λ k h. unfold close in h);
            to = refl;
            order = Order.Step-Inv Order.closes v.order;
            closed_late = λ c. all;
            settled = λ r. unfold close in (refl, (v.settled r).1);
          },
        )

    pub PipedReach-Inv :
        {p q : Piped}
        → PipedReach n source p q
        → (s : StreamSink) → PipedInv p s
        → (t : StreamSink) × PipedInv q t
    PipedReach-Inv here s v = (s, v)
    PipedReach-Inv (next r st) s v = let (t, u) = PipedReach-Inv r s v in PipedStep-Inv st t u
