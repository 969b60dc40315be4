-- ===== src/Job/Run/Attempts.antt =====
-- The workers of a file start no duplicates, so MaxTries bounds the attempts of every chunk.
use pget.Base.{
  ℕ, ◌<◌, ◌≡◌, ◌∙◌, inl, inr, Bool, true, false, List, Option, none, some, ◌==◌, if◌then◌else◌,
  get_elem?, Bool-cases,
}
use pget.Chunk.{Chunk}
use pget.Schedule.State.{Scheduler}
use pget.Schedule.Assign.{Round, stopped, fails, finished, assigned, waits}
use pget.Schedule.Attempts.{
  Bounded, next_assignment-Bounded, mark_complete-Bounded, mark_failed-Bounded,
  on_admission_failure-Bounded, on_worker_success-Bounded, cancel_hedge-Bounded, cancel-Bounded,
}
use pget.Sink.Stream.{StreamSink, SinkError, reserve}
use pget.Sink.File.{FileSink, FileError}
use pget.Job.Worker.{
  Env, Fetch, refused, broken, body, Dest, to_file, to_stream, Shared, Pc, top, asking, hedging,
  reserving, denied, failing, unhedging, fetching, delivering, rejected, settling, crediting,
  completing, ended, crashed, look_ahead, answered, first_stop, reserved, reserve_for, fetched,
  accepted, stored, submitted, deliver, with_chunk, move,
}
use pget.Job.Run.{Workers, Step, works, cancels, Reach, here, next}
use pget.Job.Run.Kind.{is_file, Step-is_file}

-- No duplicate is about to start.
abbrev IsCalm : Pc → Type 0
IsCalm (hedging slot i) = ⊥
IsCalm _ = Unit {0}

module _ (tries : ℕ) (pos : 0 < tries) where
  abbrev Kept : Shared × Pc → Type 0
  Kept (sh, pc) = Bounded tries sh.sched × IsCalm pc

  look_ahead-IsCalm :
      (env : Env) (s : Scheduler) (slot : ℕ) (dest : Dest)
      → is_file dest ≡ true
      → IsCalm (look_ahead env s slot dest)
  unfolding look_ahead
  look_ahead-IsCalm env s slot (to_file sink) e = tt
  look_ahead-IsCalm env s slot (to_stream sink) e = cc

  top-IsCalm : (stops : Bool) (a b : Pc) → IsCalm a → IsCalm b → IsCalm (if stops then a else b)
  top-IsCalm true a b h k = h
  top-IsCalm false a b h k = k

  module _ (sh : Shared) (v : Bounded tries sh.sched) where
    with_chunk-Kept :
        (o : Option Chunk) (f : Chunk → Shared × Pc)
        → ((c : Chunk) → Kept (f c))
        → Kept (with_chunk sh o f)
    unfolding with_chunk
    with_chunk-Kept none f h = (v, tt)
    with_chunk-Kept (some c) f h = h c

    first_stop-IsCalm : (slot i : ℕ) (dest : Dest) → IsCalm (first_stop slot i dest)
    unfolding first_stop
    first_stop-IsCalm slot i (to_file sink) = tt
    first_stop-IsCalm slot i (to_stream sink) = tt

    answered-Kept :
        (slot : ℕ) (r : Scheduler × Round) → Bounded tries r.0 → Kept (answered sh slot r)
    unfolding answered
    answered-Kept slot (s, stopped) h = (h, tt)
    answered-Kept slot (s, fails e) h = (h, tt)
    answered-Kept slot (s, finished) h = (h, tt)
    answered-Kept slot (s, assigned i) h = (h, first_stop-IsCalm slot i sh.dest)
    answered-Kept slot (s, waits) h = (h, tt)

    reserved-Kept : (slot i : ℕ) (r : StreamSink × Option SinkError) → Kept (reserved sh slot i r)
    unfolding reserved
    reserved-Kept slot i (sink, none) = (v, tt)
    reserved-Kept slot i (sink, some e) = (v, tt)

    reserve_for-Kept : (slot i : ℕ) (c : Chunk) (dest : Dest) → Kept (reserve_for sh slot i c dest)
    unfolding reserve_for
    reserve_for-Kept slot i c (to_file sink) = (v, tt)
    reserve_for-Kept slot i c (to_stream sink) = reserved-Kept slot i (reserve sink c.length)

    fetched-IsCalm :
        (slot i : ℕ) (hedge : Bool) (fetch : Fetch) → IsCalm (fetched slot i hedge fetch)
    unfolding fetched
    fetched-IsCalm slot i true refused = tt
    fetched-IsCalm slot i false refused = tt
    fetched-IsCalm slot i true broken = tt
    fetched-IsCalm slot i false broken = tt
    fetched-IsCalm slot i true (body payload) = tt
    fetched-IsCalm slot i false (body payload) = tt

    accepted-IsCalm : (slot i : ℕ) (hedge : Bool) (n : ℕ) → IsCalm (accepted slot i hedge n)
    unfolding accepted
    accepted-IsCalm slot i true n = tt
    accepted-IsCalm slot i false n = tt

    stored-Kept :
        (slot i : ℕ) (hedge : Bool) (n : ℕ) (r : FileSink × Option FileError)
        → Kept (stored sh slot i hedge n r)
    unfolding stored
    stored-Kept slot i hedge n (s, none) = (v, accepted-IsCalm slot i hedge n)
    stored-Kept slot i hedge n (s, some e) = (v, tt)

    submitted-Kept :
        (slot i : ℕ) (hedge : Bool) (n : ℕ) (r : StreamSink × Option SinkError)
        → Kept (submitted sh slot i hedge n r)
    unfolding submitted
    submitted-Kept slot i hedge n (s, none) = (v, accepted-IsCalm slot i hedge n)
    submitted-Kept slot i hedge n (s, some e) = (v, tt)

    deliver-Kept :
        (env : Env) (slot : ℕ) (hedge : Bool) (c : Chunk) (payload : List ℕ) (i : ℕ) (dest : Dest)
        → Kept (deliver env sh slot hedge c payload i dest)
    unfolding deliver
    deliver-Kept env slot hedge c payload i (to_file s) = stored-Kept slot i hedge _ _
    deliver-Kept env slot hedge c payload i (to_stream s) = submitted-Kept slot i hedge _ _

    move-Kept : (env : Env) (pc : Pc) → is_file sh.dest ≡ true → IsCalm pc → Kept (move env sh pc)
    unfolding move
    move-Kept env (top slot) file calm =
        (v, top-IsCalm env.interrupted _ _ tt (look_ahead-IsCalm env sh.sched slot sh.dest file))
    move-Kept env (asking slot) file calm =
        answered-Kept slot _ (next_assignment-Bounded tries sh.sched env.now slot pos v)
    move-Kept env (hedging slot i) file calm = absurd calm
    move-Kept env (reserving slot i) file calm =
        with_chunk-Kept (get_elem? sh.sched.chunks i) _ (λ c. reserve_for-Kept slot i c sh.dest)
    move-Kept env (fetching slot i hedge) file calm =
        with_chunk-Kept (get_elem? sh.sched.chunks i) _ (λ c. (v, fetched-IsCalm slot i hedge _))
    move-Kept env (denied slot i) file calm =
        (on_admission_failure-Bounded tries sh.sched env.now slot v, tt)
    move-Kept env (failing slot i) file calm =
        with_chunk-Kept (get_elem? sh.sched.chunks i) _
          (λ c. (mark_failed-Bounded tries sh.sched env.now c.index true v, tt))
    move-Kept env (unhedging slot i) file calm =
        with_chunk-Kept (get_elem? sh.sched.chunks i) _
          (λ c. (cancel_hedge-Bounded tries sh.sched c.index v, tt))
    move-Kept env (delivering slot i hedge payload) file calm =
        with_chunk-Kept (get_elem? sh.sched.chunks i) _
          (λ c. deliver-Kept env slot hedge c payload i sh.dest)
    move-Kept env (rejected i e) file calm =
        with_chunk-Kept (get_elem? sh.sched.chunks i) _
          (λ c. (mark_failed-Bounded tries sh.sched env.now c.index false v, tt))
    move-Kept env (settling slot i n) file calm =
        with_chunk-Kept (get_elem? sh.sched.chunks i) _
          (λ c. (cancel_hedge-Bounded tries sh.sched c.index v, tt))
    move-Kept env (crediting slot i n) file calm =
        with_chunk-Kept (get_elem? sh.sched.chunks i) _
          (λ c. (on_worker_success-Bounded tries sh.sched env.now slot c.length env.elapsed v, tt))
    move-Kept env (completing slot i) file calm =
        with_chunk-Kept (get_elem? sh.sched.chunks i) _
          (λ c. (mark_complete-Bounded tries sh.sched env.now c.index v, tt))
    move-Kept env (ended o) file calm = (v, tt)
    move-Kept env crashed file calm = (v, tt)

  pub record FileInv (w : Workers) : Type 0 where
    pub file : is_file w.shared.dest ≡ true
    pub bounded : Bounded tries w.shared.sched
    pub calm : (k : ℕ) → IsCalm (w.pcs k)

  Step-FileInv :
      {n : ℕ} {source : List ℕ} {w u : Workers} → Step n source w u → FileInv w → FileInv u
  Step-FileInv {w = w} (works i env lt serves) v =
      let (bounded, calm) = move-Kept w.shared v.bounded env (w.pcs i) v.file (v.calm i) in
      record {
        file = Step-is_file {w = w} (works i env lt serves) ∙ v.file;
        bounded = bounded;
        calm = λ k. elim (Bool-cases (i == k)) [ inl e ↦ rw e calm | inr e ↦ rw e (v.calm k) ];
      }
  Step-FileInv {w = w} cancels v = record {
    file = v.file;
    bounded = cancel-Bounded tries w.shared.sched v.bounded;
    calm = v.calm;
  }

  pub Reach-FileInv :
      {n : ℕ} {source : List ℕ} {w u : Workers} → Reach n source w u → FileInv w → FileInv u
  Reach-FileInv here v = v
  Reach-FileInv (next r st) v = Step-FileInv st (Reach-FileInv r v)
