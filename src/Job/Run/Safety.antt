-- ===== src/Job/Run/Safety.antt =====
-- What every reachable state of the workers satisfies.
use pget.Base.{
  ℕ, zero, suc, ◌+◌, ◌≤◌, ◌<◌, ◌≡◌, refl, inl, inr, true, List, [], ◌∷◌, some, arith, length,
  get_elem?, ◌==◌, Bool-cases,
}
use pget.Base.Int64.{half}
use pget.Chunk.{Chunk}
use pget.Schedule.State.{Scheduler, is_completed}
use pget.Schedule.Report.{cancel}
use pget.Schedule.Evolve.{Evolves-refl}
use pget.Schedule.Counts.{AllCompleted, AllCompleted-of_count}
use pget.Schedule.Tally.{cancel-Tally}
use pget.Job.Worker.{
  Env, Dest, Pc, top, asking, hedging, reserving, denied, failing, unhedging, fetching, delivering,
  rejected, settling, crediting, completing, ended, crashed, move,
}
use pget.Job.Run.{Workers, Serves, Step, works, cancels, Reach, here, next, update}
use pget.Job.Run.Delivered.{IsDelivered, Claim, SameRanges, SharedInv, evolve-SharedInv}
use pget.Job.Run.Sinks.{Preserves, Preserves-at}
use pget.Job.Run.Moves.{move-Moved}

module _ (planned : List Chunk) (source : List ℕ) (base : ℕ) where
  pub record Inv (w : Workers) : Type 0 where
    pub shared : SharedInv planned source base w.shared.sched w.shared.dest
    pub claims : (k : ℕ) → Claim planned source base w.shared.dest (w.pcs k)

  -- A claim outlives every change that loses nothing.
  pub Claim-Preserves :
      (dest dest' : Dest) (pc : Pc)
      → Preserves planned source base dest dest'
      → Claim planned source base dest pc
      → Claim planned source base dest' pc
  Claim-Preserves dest dest' (top slot) k h = tt
  Claim-Preserves dest dest' (asking slot) k h = tt
  Claim-Preserves dest dest' (hedging slot i) k h = tt
  Claim-Preserves dest dest' (reserving slot i) k h = tt
  Claim-Preserves dest dest' (denied slot i) k h = tt
  Claim-Preserves dest dest' (failing slot i) k h = tt
  Claim-Preserves dest dest' (unhedging slot i) k h = tt
  Claim-Preserves dest dest' (fetching slot i hedge) k h = tt
  Claim-Preserves dest dest' (delivering slot i hedge payload) k h = h
  Claim-Preserves dest dest' (rejected i e) k h = tt
  Claim-Preserves dest dest' (settling slot i n) k h =
      Preserves-at planned source base dest dest' i k h
  Claim-Preserves dest dest' (crediting slot i n) k h =
      Preserves-at planned source base dest dest' i k h
  Claim-Preserves dest dest' (completing slot i) k h =
      Preserves-at planned source base dest dest' i k h
  Claim-Preserves dest dest' (ended o) k h = tt
  Claim-Preserves dest dest' crashed k h = tt

  module _
      (laid : (i : ℕ) (c : Chunk)
        → get_elem? planned i ≡ some c
        → (base + c.start < half) × (c.index ≡ i)) where
    works-Inv :
        (w : Workers) (i : ℕ) (env : Env)
        → Serves source env
        → Inv w
        → Inv (record {
          shared = (move env w.shared (w.pcs i)).0;
          pcs = update w.pcs i (move env w.shared (w.pcs i)).1;
        })
    works-Inv w i env serves v =
        let m =
          move-Moved planned source base laid env w.shared serves v.shared (w.pcs i) (v.claims i) in
        record {
          shared = m.inv;
          claims = λ k. elim (Bool-cases (i == k)) [
            | inl e ↦ rw e m.claim
            | inr e ↦ rw e (Claim-Preserves w.shared.dest _ (w.pcs k) m.preserves (v.claims k))
          ];
        }

    pub Step-Inv : {n : ℕ} {w u : Workers} → Step n source w u → Inv w → Inv u
    Step-Inv {w = w} (works i env lt serves) v = works-Inv w i env serves v
    Step-Inv {w = w} cancels v = record {
      shared =
          evolve-SharedInv planned source base w.shared.sched _ w.shared.dest v.shared
            (cancel-Tally w.shared.sched v.shared.tally)
            (unfold cancel in Evolves-refl w.shared.sched.chunks);
      claims = v.claims;
    }

    pub Reach-Inv : {n : ℕ} {w u : Workers} → Reach n source w u → Inv w → Inv u
    Reach-Inv here v = v
    Reach-Inv (next r st) v = Step-Inv st (Reach-Inv r v)

AllCompleted-get :
    (cs : List Chunk) (i : ℕ) (c : Chunk)
    → AllCompleted cs
    → get_elem? cs i ≡ some c
    → is_completed c.state ≡ true
AllCompleted-get [] i c h e = cc
AllCompleted-get (x ∷ cs) zero c h e = ground (arith, h)
AllCompleted-get (x ∷ cs) (suc i) c h e = AllCompleted-get cs i c h.1 e

SameRanges-find :
    (cs cs' : List Chunk) (i : ℕ) (c : Chunk)
    → SameRanges cs cs'
    → get_elem? cs i ≡ some c
    → (c' : Chunk) × (get_elem? cs' i ≡ some c')
SameRanges-find [] cs' i c r e = cc
SameRanges-find (x ∷ cs) [] i c r e = absurd r
SameRanges-find (x ∷ cs) (y ∷ cs') zero c r e = (y, refl)
SameRanges-find (x ∷ cs) (y ∷ cs') (suc i) c r e = SameRanges-find cs cs' i c r.1 e

-- When as many chunks are counted as there are, each of the planned ones has been delivered.
pub all-IsDelivered :
    (planned : List Chunk) (source : List ℕ) (base : ℕ) (s : Scheduler) (dest : Dest) (i : ℕ)
    (c : Chunk)
    → SharedInv planned source base s dest
    → length s.chunks ≤ s.completed_count
    → get_elem? planned i ≡ some c
    → IsDelivered source base dest c
all-IsDelivered planned source base s dest i c v all at =
    let (c', at') = SameRanges-find planned s.chunks i c v.ranges at in
    let full = AllCompleted-of_count s.chunks (rw (← v.tally.completed_counted) all) in
    v.done i c' at' (AllCompleted-get s.chunks i c' full at') c at
