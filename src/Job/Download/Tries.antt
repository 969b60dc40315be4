-- ===== src/Job/Download/Tries.antt =====
-- How often a download into a file tries each of its chunks.
use pget.Base.{
  ℕ, zero, suc, ◌≤◌, ◌<◌, ◌≡◌, ◌∙◌, sym, refl, ap, subst, inl, inr, ◌&&◌, Bool, true, false, List,
  [], ◌∷◌, Option, none, some, arith, ◌==◌, get_elem?, Bool-cases, some-inj,
}
use pget.Base.Int64.{le64, is_negative}
use pget.Cli.{ExecutionPlan}
use pget.Chunk
use pget.Chunk.{Chunk, chunks_from, chunk_at, quotient_up, make_chunks, pending}
use pget.Schedule.State.{Scheduler, Config, new, is_active, is_retry_wait}
use pget.Schedule.Attempts.{Bounded}
use pget.Sink.File.{FileSink}
use pget.Job.Worker.{to_file}
use pget.Job.Run.{Workers, Reach, launch}
use pget.Job.Run.Attempts.{Reach-FileInv}
use pget.Job.Download.{mark_done, file_config, started, prepare_file}
use pget.Job.Download.File.{prepare_file-started, new-chunks}

abbrev IsUntried : Chunk → Type 0
IsUntried c = (c.attempts ≡ 0) × (is_retry_wait c.state ≡ false) × (is_active c.state ≡ false)

abbrev AllUntried : List Chunk → Type 0
AllUntried cs = (i : ℕ) (c : Chunk) → get_elem? cs i ≡ some c → IsUntried c

chunks_from-AllUntried : (split size rounds k : ℕ) → AllUntried (chunks_from split size rounds k)
unfolding chunks_from chunk_at
chunks_from-AllUntried split size zero k i c at = cc
chunks_from-AllUntried split size (suc rounds) k zero c at =
    subst IsUntried (some-inj at) (refl, refl, refl)
chunks_from-AllUntried split size (suc rounds) k (suc i) c at =
    chunks_from-AllUntried split size rounds (suc k) i c at

make_chunks-AllUntried :
    (split size : ℕ) (o : Option ℕ) (cs : List Chunk)
    → make_chunks split size o ≡ some cs
    → AllUntried cs
unfolding make_chunks
make_chunks-AllUntried split size none cs e = cc
make_chunks-AllUntried split size (some n) cs e = elim (Bool-cases (is_negative n)) [
  | inl neg ↦ absurd (let q : none ≡ some cs = rw neg at e in cc)
  | inr fits ↦ subst AllUntried (some-inj (rw fits at e)) (chunks_from-AllUntried split size n 0)
]

plan-AllUntried :
    (split size : ℕ) (cs : List Chunk) → Chunk.plan split size ≡ some cs → AllUntried cs
unfolding Chunk.plan
plan-AllUntried split size cs e = elim (Bool-cases (le64 size 0)) [
  | inl empty ↦ subst AllUntried (some-inj (rw empty at e)) (λ i c at. cc)
  | inr some_bytes ↦
      make_chunks-AllUntried split size (quotient_up split size) cs (rw some_bytes at e)
]

mark_done-AllUntried :
    (marks : ℕ → Bool) (cs : List Chunk) → AllUntried cs → AllUntried (mark_done marks cs)
unfolding mark_done
mark_done-AllUntried marks [] h i c at = cc
mark_done-AllUntried marks (x ∷ cs) h zero c at = elim (Bool-cases (marks x.index)) [
  | inl m ↦
      let (none_yet, _, _) = h zero x refl in
      subst IsUntried (some-inj (rw m at at)) (none_yet, refl, refl)
  | inr m ↦ subst IsUntried (some-inj (rw m at at)) (h zero x refl)
]
mark_done-AllUntried marks (x ∷ cs) h (suc i) c at =
    mark_done-AllUntried marks cs (λ j d e. h (suc j) d e) i c at

tries_of : ℕ → Option Scheduler → ℕ
tries_of n none = n
tries_of n (some s) = s.cfg.max_tries

new-tries :
    (cfg : Config) (cs : List Chunk) (has_sink : Bool) (s : Scheduler)
    → new cfg cs has_sink ≡ some s
    → s.cfg.max_tries ≡ cfg.max_tries
unfolding new tries_of
new-tries cfg cs has_sink s e =
    elim (Bool-cases (cfg.stream_mode && has_sink && cfg.split_size == 0)) [
      | inl p ↦ absurd (ground (arith, e))
      | inr p ↦ sym (ap (tries_of cfg.max_tries) (rw p at e))
    ]

-- In a download into a file no chunk is ever tried more often than the configured number of times,
-- at least one, in whatever order the workers move and whatever fails, also if the sidecar's marks have
-- gaps, in which case a completed chunk may be fetched again.
pub download_file-attempts :
    (plan : ExecutionPlan) (size : ℕ) (marks : ℕ → Bool) (base : ℕ) (created : Bool)
    (file source : List ℕ) (cs : List Chunk) (s : Scheduler) (sink : FileSink) (w : Workers) (i : ℕ)
    (c : Chunk)
    → 0 < plan.max_tries
    → Chunk.plan plan.split_size size ≡ some cs
    → prepare_file plan size marks base created (some file) ≡ started s sink
    → Reach plan.connections source (launch s (to_file sink)) w
    → get_elem? w.shared.sched.chunks i ≡ some c
    → c.attempts ≤ plan.max_tries
unfolding launch file_config
download_file-attempts plan size marks base created file source cs s sink w i c pos planned prepared
      r at =
    let (made, _) =
      prepare_file-started plan size marks base created file cs s sink planned prepared in
    let table = new-chunks (file_config plan) (mark_done marks cs) false s made in
    let fresh = mark_done-AllUntried marks cs (plan-AllUntried plan.split_size size cs planned) in
    let bounded : Bounded plan.max_tries s = record {
      configured = new-tries (file_config plan) (mark_done marks cs) false s made;
      within = λ j d at_d.
          let (none_yet, rests, idle) = fresh j d (rw table at at_d) in
          (
            omega (arith, none_yet),
            (λ q. absurd (let x : true ≡ false = sym q ∙ rests in cc)),
            λ behind. (none_yet, rests, idle),
          );
    } in
    let done =
      Reach-FileInv plan.max_tries pos r
        (record { file = refl; bounded = bounded; calm = λ k. tt }) in
    (done.bounded.within i c at).0
