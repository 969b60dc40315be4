-- ===== src/Job/Download/File.antt =====
-- The whole of a download into a file: the plan, the sidecar's marks, the workers, their exit code.
use pget.Base.{
  ℕ, zero, suc, ◌+◌, ◌≤◌, ◌<◌, ◌≡◌, ◌∙◌, sym, refl, ap, subst, inl, inr, ◌&&◌, Bool, true, false,
  List, [], ◌∷◌, Option, none, some, arith, length, get_elem?, ◌==◌, ltb, Bool-cases,
}
use pget.Base.Int64.{half}
use pget.Cli.{ExecutionPlan}
use pget.Chunk
use pget.Chunk.{Chunk, pending, completed}
use pget.Chunk.Tiling.{Tiles, plan-Tiles}
use pget.Schedule.State.{Scheduler, Config, new, is_completed}
use pget.Schedule.Steps.{IsContiguous, new-Inv}
use pget.Schedule.Tally.{Inv-Tally}
use pget.Schedule.Report.{progress}
use pget.Sink.File.{FileSink}
use pget.Sink.File.Placement.{byte_at}
use pget.Job.Exit.{exit_success, workers_code-success}
use pget.Job.Worker.{Dest, to_file, to_stream, WorkerError}
use pget.Job.Run.{Workers, Reach, launch}
use pget.Job.Run.Delivered.{IsDelivered, SameRanges, SharedInv}
use pget.Job.Run.Safety.{Inv, Reach-Inv, all-IsDelivered}
use pget.Job.Run.Kind.{is_file, Reach-is_file}
use pget.Job.Download.{
  mark_done, none_pending, file_config, already_complete, sidecar_failed, started, with_scheduler,
  open_sink, prepare_chunks, prepare_file, run_code,
}

SameRanges-mark_done : (marks : ℕ → Bool) (cs : List Chunk) → SameRanges cs (mark_done marks cs)
unfolding mark_done
SameRanges-mark_done marks [] = tt
SameRanges-mark_done marks (c ∷ cs) = elim (Bool-cases (marks c.index)) [
  | inl e ↦ rw e ((refl, refl, refl), SameRanges-mark_done marks cs)
  | inr e ↦ rw e ((refl, refl, refl), SameRanges-mark_done marks cs)
]

-- A chunk that the table has completed from the start is one that the sidecar names.
mark_done-marked :
    (split size : ℕ) (marks : ℕ → Bool) (n off : ℕ) (cs : List Chunk) (i : ℕ) (c c' : Chunk)
    → Tiles split size n off cs
    → get_elem? cs i ≡ some c
    → get_elem? (mark_done marks cs) i ≡ some c'
    → is_completed c'.state ≡ true
    → marks c.index ≡ true
unfolding mark_done
mark_done-marked split size marks n off [] i c c' t e e' d = cc
mark_done-marked split size marks n off (x ∷ cs) zero c c' (_, _, _, _, st, _) e e' d =
    elim (Bool-cases (marks x.index)) [
      | inl m ↦ ground (arith, e, m)
      | inr m ↦ absurd (ground (arith, e', m, st, d))
    ]
mark_done-marked split size marks n off (x ∷ cs) (suc i) c c' (_, _, _, _, _, t) e e' d =
    mark_done-marked split size marks (suc n) (off + x.length) cs i c c' t e e' d

-- Every byte behind the first chunk's start stands in one of the chunks.
Tiles-cover :
    (split size n off : ℕ) (cs : List Chunk) (x : ℕ)
    → Tiles split size n off cs
    → off ≤ x
    → x < size
    → (i : ℕ) × (c : Chunk) × (get_elem? cs i ≡ some c) × (c.start ≤ x) × (x < c.start + c.length)
Tiles-cover split size n off [] x t le lt = absurd (omega arith)
Tiles-cover split size n off (c ∷ cs) x (_, at, _, _, _, t) le lt =
    elim (Bool-cases (ltb x (off + c.length))) [
      | inl inside ↦ (zero, c, refl, ground arith, ground arith)
      | inr behind ↦
          let (i, d, e, from, to) =
            Tiles-cover split size (suc n) (off + c.length) cs x t (ground arith) lt in
          (suc i, d, e, from, to)
    ]

pub Tiles-end : (split size n off : ℕ) (cs : List Chunk) → Tiles split size n off cs → off ≤ size
Tiles-end split size n off [] t = omega arith
Tiles-end split size n off (c ∷ cs) (_, _, _, _, _, t) =
    omega (arith, Tiles-end split size (suc n) (off + c.length) cs t)

Tiles-start :
    (split size n off : ℕ) (cs : List Chunk) (i : ℕ) (c : Chunk)
    → Tiles split size n off cs
    → get_elem? cs i ≡ some c
    → c.start < size
Tiles-start split size n off [] i c t e = cc
Tiles-start split size n off (x ∷ cs) zero c (_, at, pos, _, _, t) e =
    ground (arith, Tiles-end split size (suc n) (off + x.length) cs t)
Tiles-start split size n off (x ∷ cs) (suc i) c (_, _, _, _, _, t) e =
    Tiles-start split size (suc n) (off + x.length) cs i c t e

Tiles-number :
    (split size n off : ℕ) (cs : List Chunk) (i : ℕ) (c : Chunk)
    → Tiles split size n off cs
    → get_elem? cs i ≡ some c
    → c.index ≡ n + i
Tiles-number split size n off [] i c t e = cc
Tiles-number split size n off (x ∷ cs) zero c (ix, _, _, _, _, t) e = ground arith
Tiles-number split size n off (x ∷ cs) (suc i) c (_, _, _, _, _, t) e =
    omega (arith, Tiles-number split size (suc n) (off + x.length) cs i c t e)

pub Tiles-index :
    (split size : ℕ) (cs : List Chunk) (i : ℕ) (c : Chunk)
    → Tiles split size 0 0 cs
    → get_elem? cs i ≡ some c
    → c.index ≡ i
Tiles-index split size cs i c t e = omega (arith, Tiles-number split size 0 0 cs i c t e)

or_table : List Chunk → Option Scheduler → List Chunk
or_table d none = d
or_table d (some s) = s.chunks

pub new-chunks :
    (cfg : Config) (cs : List Chunk) (has_sink : Bool) (s : Scheduler)
    → new cfg cs has_sink ≡ some s
    → s.chunks ≡ cs
unfolding new or_table
new-chunks cfg cs has_sink s e =
    elim (Bool-cases (cfg.stream_mode && has_sink && cfg.split_size == 0)) [
      | inl p ↦ absurd (ground (arith, e))
      | inr p ↦ sym (ap (or_table cs) (rw p at e))
    ]

with_scheduler-started :
    (sink sink' : FileSink) (o : Option Scheduler) (s : Scheduler)
    → with_scheduler sink o ≡ started s sink'
    → (o ≡ some s) × (sink ≡ sink')
unfolding with_scheduler
with_scheduler-started sink sink' none s e = cc
with_scheduler-started sink sink' (some t) s e = (cc, cc)

-- What the workers start with, when the preparation comes so far.
pub prepare_file-started :
    (plan : ExecutionPlan) (size : ℕ) (marks : ℕ → Bool) (base : ℕ) (created : Bool) (file : List ℕ)
    (cs : List Chunk) (s : Scheduler) (sink : FileSink)
    → Chunk.plan plan.split_size size ≡ some cs
    → prepare_file plan size marks base created (some file) ≡ started s sink
    → (new (file_config plan) (mark_done marks cs) false ≡ some s)
      × (record { file = file; base_off = base; has_sidecar = true; marked = [] } ≡ sink)
unfolding prepare_file prepare_chunks open_sink
prepare_file-started plan size marks base created file cs s sink planned e =
    let e' = rw planned at e in
    elim (Bool-cases (none_pending marks cs)) [
      | inl p ↦ absurd (let q : already_complete ≡ started s sink = rw p at e' in cc)
      | inr p ↦ elim (Bool-cases created) [
        | inl c ↦ with_scheduler-started _ sink _ s (rw (p, c) at e')
        | inr c ↦ absurd (let q : sidecar_failed ≡ started s sink = rw (p, c) at e' in cc)
      ]
    ]

module _ (planned : List Chunk) (source : List ℕ) (base : ℕ) where
  pub launch-Inv :
      (s : Scheduler) (dest : Dest)
      → SharedInv planned source base s dest
      → Inv planned source base (launch s dest)
  unfolding launch
  launch-Inv s dest v = record { shared = v; claims = λ k. tt }

-- No worker's error and no chunk left.
pub run_code-succeeds :
    (describe : WorkerError → List ℕ) (order : List ℕ) (w : Workers)
    → run_code describe order w ≡ exit_success
    → length w.shared.sched.chunks ≤ w.shared.sched.completed_count
unfolding run_code progress
run_code-succeeds describe order w e =
    ((workers_code-success _ w.shared.sched.completed_count (length w.shared.sched.chunks)).0 e).1

pub file_of : (dest : Dest) → is_file dest ≡ true → (sink : FileSink) × (dest ≡ to_file sink)
file_of (to_file sink) e = (sink, refl)
file_of (to_stream sink) e = cc

pub Tiles-laid :
    (split size base : ℕ) (cs : List Chunk)
    → base + size ≤ half
    → Tiles split size 0 0 cs
    → (i : ℕ) (c : Chunk) → get_elem? cs i ≡ some c
    → (base + c.start < half) × (c.index ≡ i)
Tiles-laid split size base cs fits tiles i c at = (
  omega (arith, Tiles-start split size 0 0 cs i c tiles at),
  Tiles-index split size cs i c tiles at,
)

-- The file holds the bytes of the chunks that the marks name.
abbrev pub HoldsMarked : (ℕ → Bool) → List Chunk → ℕ → List ℕ → List ℕ → Type 0
HoldsMarked marks cs base file source =
    (i : ℕ) (c : Chunk)
    → get_elem? cs i ≡ some c
    → marks c.index ≡ true
    → (y : ℕ) → c.start ≤ y
    → y < c.start + c.length
    → byte_at file (base + y) ≡ byte_at source y

module _ (plan : ExecutionPlan) (size : ℕ) (cs : List Chunk) (some_bytes : 0 < size)
    (pos : 0 < plan.split_size) (small : size + plan.split_size ≤ half)
    (planned : Chunk.plan plan.split_size size ≡ some cs) where
  pub planned-Tiles : Tiles plan.split_size size 0 0 cs
  planned-Tiles =
      let (cs', e, tiles, _) = plan-Tiles plan.split_size size pos small some_bytes in
      let same : cs' ≡ cs = ap (λ o. elim o [ none ↦ cs | some t ↦ t ]) (sym e ∙ planned) in
      subst (λ t. Tiles plan.split_size size 0 0 t) same tiles

  -- The invariant holds where the workers start.
  pub started-Inv :
      (marks : ℕ → Bool) (base : ℕ) (created : Bool) (file source : List ℕ) (s : Scheduler)
      (sink : FileSink)
      → IsContiguous (mark_done marks cs)
      → HoldsMarked marks cs base file source
      → prepare_file plan size marks base created (some file) ≡ started s sink
      → Inv cs source base (launch s (to_file sink)) × (sink.file ≡ file)
  started-Inv marks base created file source s sink front held prepared =
      let (made, opened) =
        prepare_file-started plan size marks base created file cs s sink planned prepared in
      let table = new-chunks (file_config plan) (mark_done marks cs) false s made in
      (
        launch-Inv cs source base s (to_file sink) (record {
          tally =
              Inv-Tally s 0 (new-Inv (file_config plan) (mark_done marks cs) false s front made);
          ranges = rw table (SameRanges-mark_done marks cs);
          done = λ i c' at d c at_planned.
              subst (λ k. IsDelivered source base (to_file k) c) opened
                (held i c at_planned (
                  mark_done-marked plan.split_size size marks 0 0 cs i c c' planned-Tiles at_planned
                    (rw table at at) d));
          based = ap (λ k. k.base_off) (sym opened);
        }),
        ap (λ k. k.file) (sym opened),
      )

-- A download into a file whose workers are reported as a success, in whatever order they moved, whatever
-- failed on the way and whether the scheduler was cancelled, leaves the file with every byte of the
-- source up to the size, behind the base offset. The conditions are: a positive split size, size and
-- split size together at most 2^63, base and size too, marks that name a front part of the chunks, of
-- which the file holds the bytes, and replies that are those of one unchanged source.
pub download_file-source :
    (order : List ℕ) (plan : ExecutionPlan) (size : ℕ) (marks : ℕ → Bool) (base : ℕ)
    (created : Bool) (file source : List ℕ) (describe : WorkerError → List ℕ) (cs : List Chunk)
    (s : Scheduler) (sink : FileSink) (w : Workers) (x : ℕ)
    → 0 < plan.split_size
    → size + plan.split_size ≤ half
    → base + size ≤ half
    → Chunk.plan plan.split_size size ≡ some cs
    → IsContiguous (mark_done marks cs)
    → HoldsMarked marks cs base file source
    → prepare_file plan size marks base created (some file) ≡ started s sink
    → Reach plan.connections source (launch s (to_file sink)) w
    → run_code describe order w ≡ exit_success
    → x < size
    → (last : FileSink) × (w.shared.dest ≡ to_file last)
      × (byte_at last.file (base + x) ≡ byte_at source x)
unfolding launch
download_file-source order plan size marks base created file source describe cs s sink w x pos small
      fits planned front held prepared r ok lt =
    let tiles = planned-Tiles plan size cs (omega arith) pos small planned in
    let (v, _) =
      started-Inv plan size cs (omega arith) pos small planned marks base created file source s sink
        front held prepared in
    let done = Reach-Inv cs source base (Tiles-laid plan.split_size size base cs fits tiles) r v in
    let (last, is) = file_of w.shared.dest (Reach-is_file r) in
    let (i, c, at, from, to) = Tiles-cover plan.split_size size 0 0 cs x tiles (omega arith) lt in
    let whole : IsDelivered source base w.shared.dest c =
      all-IsDelivered cs source base w.shared.sched w.shared.dest i c done.shared
        (run_code-succeeds describe order w ok) at in
    (last, is, subst (λ k. IsDelivered source base k c) is whole x from to)
