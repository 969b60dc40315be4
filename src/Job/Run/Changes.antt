-- ===== src/Job/Run/Changes.antt =====
-- What a move of a worker keeps that touches only the scheduler, and what the sink may become.
use pget.Base.{ℕ, ◌≡◌, sym, refl, subst, inl, inr, true, List, Option, none, some, Option-cases}
use pget.Chunk.{Chunk}
use pget.Schedule.State.{Scheduler}
use pget.Schedule.Assign.{Round, stopped, fails, finished, assigned, waits}
use pget.Schedule.Hedge.{hedge_eligible}
use pget.Schedule.Steps.{state_of}
use pget.Schedule.Evolve.{Evolves, Evolves-refl}
use pget.Schedule.Tally.{Tally}
use pget.Job.Worker.{
  Env, Dest, to_file, to_stream, Shared, Pc, asking, fetching, ended, crashed, look_ahead,
  hedge_started, first_stop, answered, with_chunk, context_done,
}
use pget.Job.Run.Delivered.{IsBased, Claim, SharedInv, evolve-SharedInv}
use pget.Job.Run.Sinks.{Preserves, Preserves-at}

module _ (planned : List Chunk) (source : List ℕ) (base : ℕ) where
  -- What holds after a move.
  pub record Moved (dest : Dest) (r : Shared × Pc) : Type 0 where
    pub inv : SharedInv planned source base r.0.sched r.0.dest
    pub preserves : Preserves planned source base dest r.0.dest
    pub claim : Claim planned source base r.0.dest r.1

module _ {planned : List Chunk} {source : List ℕ} {base : ℕ} (sh : Shared)
    (v : SharedInv planned source base sh.sched sh.dest) where
  -- A move that touches nothing but the scheduler, and completes no chunk.
  pub schedules-Moved :
      (s : Scheduler) (pc : Pc)
      → Tally s
      → Evolves sh.sched.chunks s.chunks
      → Claim planned source base sh.dest pc
      → Moved planned source base sh.dest (record sh { sched = s }, pc)
  schedules-Moved s pc tally e claim = record {
    inv = evolve-SharedInv planned source base sh.sched s sh.dest v tally e;
    preserves = λ c h. h;
    claim = claim;
  }

  pub rests-Moved :
      (pc : Pc) → Claim planned source base sh.dest pc → Moved planned source base sh.dest (sh, pc)
  rests-Moved pc claim = record { inv = v; preserves = λ c h. h; claim = claim }

  pub look_ahead-Moved :
      (env : Env) (slot : ℕ) (dest : Dest)
      → Claim planned source base sh.dest (look_ahead env sh.sched slot dest)
  look_ahead-Moved env slot (to_file s) = unfold look_ahead in tt
  look_ahead-Moved env slot (to_stream s) =
      elim (Option-cases (hedge_eligible sh.sched env.now env.readings)) [
        | inl e ↦ unfold look_ahead in rw (e, Claim) tt
        | inr (i, e) ↦ unfold look_ahead in rw (e, Claim) tt
      ]

  pub first_stop-Claim :
      (slot i : ℕ) (dest : Dest) → Claim planned source base sh.dest (first_stop slot i dest)
  first_stop-Claim slot i (to_file s) = unfold first_stop in tt
  first_stop-Claim slot i (to_stream s) = unfold first_stop in tt

  pub answered-Moved :
      (slot : ℕ) (r : Scheduler × Round)
      → Tally r.0
      → Evolves sh.sched.chunks r.0.chunks
      → Moved planned source base sh.dest (answered sh slot r)
  answered-Moved slot (s, stopped) t e =
      unfold answered in schedules-Moved s (ended (some context_done)) t e tt
  answered-Moved slot (s, fails x) t e = unfold answered in schedules-Moved s _ t e tt
  answered-Moved slot (s, finished) t e = unfold answered in schedules-Moved s (ended none) t e tt
  answered-Moved slot (s, assigned i) t e =
      unfold answered in
      schedules-Moved s (first_stop slot i sh.dest) t e (first_stop-Claim slot i sh.dest)
  answered-Moved slot (s, waits) t e = unfold answered in schedules-Moved s (asking slot) t e tt

  pub hedge_started-Moved :
      (slot i : ℕ) (o : Option (Scheduler × Option ℕ))
      → Tally (state_of sh.sched o)
      → Evolves sh.sched.chunks (state_of sh.sched o).chunks
      → Moved planned source base sh.dest (hedge_started sh slot i o)
  hedge_started-Moved slot i none t e = unfold hedge_started in rests-Moved crashed tt
  hedge_started-Moved slot i (some (s, none)) t e =
      unfold hedge_started in schedules-Moved s (asking slot) t e tt
  hedge_started-Moved slot i (some (s, some hedge_slot)) t e =
      unfold hedge_started in schedules-Moved s (fetching hedge_slot i true) t e tt

  pub with_chunk-Moved :
      (o : Option Chunk) (f : Chunk → Shared × Pc)
      → ((c : Chunk) → o ≡ some c → Moved planned source base sh.dest (f c))
      → Moved planned source base sh.dest (with_chunk sh o f)
  unfolding with_chunk
  with_chunk-Moved none f h = rests-Moved crashed tt
  with_chunk-Moved (some c) f h = h c refl

  -- A move that touches nothing but the sink.
  pub redirect-SharedInv :
      (dest : Dest)
      → IsBased planned source base dest
      → Preserves planned source base sh.dest dest
      → SharedInv planned source base sh.sched dest
  redirect-SharedInv dest at k = record {
    tally = v.tally;
    ranges = v.ranges;
    done = λ i c e d. Preserves-at planned source base sh.dest dest i k (v.done i c e d);
    based = at;
  }

  pub unchanged-Moved :
      (s : Scheduler) (pc : Pc)
      → Tally s
      → s.chunks ≡ sh.sched.chunks
      → Claim planned source base sh.dest pc
      → Moved planned source base sh.dest (record sh { sched = s }, pc)
  unchanged-Moved s pc t e claim =
      schedules-Moved s pc t (subst (Evolves sh.sched.chunks) (sym e) (Evolves-refl _)) claim
