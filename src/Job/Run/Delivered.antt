-- ===== src/Job/Run/Delivered.antt =====
-- What it means that a chunk has been delivered, and that the table still names the planned ranges.
use pget.Base.{
  ℕ, zero, suc, ◌+◌, ◌≤◌, ◌<◌, ◌≡◌, ◌∙◌, refl, true, List, [], ◌∷◌, some, arith, length, take, drop,
  get_elem?, modify,
}
use pget.Chunk.{Chunk}
use pget.Schedule.State.{Scheduler, is_completed}
use pget.Schedule.Evolve.{Evolves}
use pget.Schedule.Report.{set_completed}
use pget.Schedule.Tally.{Tally}
use pget.Sink.Stream.Delivery.{IsKept}
use pget.Sink.File.Placement.{byte_at}
use pget.Job.Worker.{Dest, to_file, to_stream, Pc, delivering, settling, crediting, completing}

-- The bytes of the source that a chunk names.
abbrev pub piece : List ℕ → Chunk → List ℕ
piece source c = take c.length (drop c.start source)

-- In the file, every byte of the chunk's range; in the stream, the chunk is written or will be found.
abbrev pub IsDelivered : List ℕ → ℕ → Dest → Chunk → Type 0
IsDelivered source base (to_file sink) c =
    (i : ℕ) → c.start ≤ i → i < c.start + c.length → byte_at sink.file (base + i) ≡ byte_at source i
IsDelivered source base (to_stream sink) c = IsKept c.index sink

-- The two tables name the same ranges.
abbrev pub SameRanges : List Chunk → List Chunk → Type 0
SameRanges [] [] = Unit {0}
SameRanges [] (c' ∷ cs') = ⊥
SameRanges (c ∷ cs) [] = ⊥
SameRanges (c ∷ cs) (c' ∷ cs') =
    ((c'.index ≡ c.index) × (c'.start ≡ c.start) × (c'.length ≡ c.length)) × SameRanges cs cs'

pub SameRanges-refl : (cs : List Chunk) → SameRanges cs cs
SameRanges-refl [] = tt
SameRanges-refl (c ∷ cs) = ((refl, refl, refl), SameRanges-refl cs)

pub Evolves-SameRanges :
    (cs cs' cs'' : List Chunk) → SameRanges cs cs' → Evolves cs' cs'' → SameRanges cs cs''
Evolves-SameRanges [] [] [] r e = tt
Evolves-SameRanges [] [] (x ∷ cs'') r e = absurd e
Evolves-SameRanges [] (y ∷ cs') cs'' r e = absurd r
Evolves-SameRanges (x ∷ cs) [] cs'' r e = absurd r
Evolves-SameRanges (x ∷ cs) (y ∷ cs') [] r e = absurd e
Evolves-SameRanges (x ∷ cs) (y ∷ cs') (z ∷ cs'') ((i, s, l), r) ((i', s', l', st), e) =
    ((i' ∙ i, s' ∙ s, l' ∙ l), Evolves-SameRanges cs cs' cs'' r e)

pub SameRanges-set_completed :
    (cs cs' : List Chunk) (i : ℕ) → SameRanges cs cs' → SameRanges cs (modify cs' i set_completed)
unfolding set_completed
SameRanges-set_completed [] [] i r = tt
SameRanges-set_completed [] (y ∷ cs') i r = absurd r
SameRanges-set_completed (x ∷ cs) [] i r = absurd r
SameRanges-set_completed (x ∷ cs) (y ∷ cs') zero r = r
SameRanges-set_completed (x ∷ cs) (y ∷ cs') (suc i) r = (r.0, SameRanges-set_completed cs cs' i r.1)

-- The planned chunk at a position of the table.
pub SameRanges-get :
    (cs cs' : List Chunk) (i : ℕ) (c' : Chunk)
    → SameRanges cs cs'
    → get_elem? cs' i ≡ some c'
    → (c : Chunk) × (get_elem? cs i ≡ some c)
      × (c'.index ≡ c.index)
      × (c'.start ≡ c.start)
      × (c'.length ≡ c.length)
SameRanges-get [] [] i c' r e = cc
SameRanges-get [] (y ∷ cs') i c' r e = absurd r
SameRanges-get (x ∷ cs) [] i c' r e = absurd r
SameRanges-get (x ∷ cs) (y ∷ cs') zero c' r e = (x, refl, ground arith, ground arith, ground arith)
SameRanges-get (x ∷ cs) (y ∷ cs') (suc i) c' r e = SameRanges-get cs cs' i c' r.1 e

-- A chunk that is completed was completed before.
pub Evolves-completed :
    (cs cs' : List Chunk) (i : ℕ) (c' : Chunk)
    → Evolves cs cs'
    → get_elem? cs' i ≡ some c'
    → is_completed c'.state ≡ true
    → (c : Chunk) × (get_elem? cs i ≡ some c) × (is_completed c.state ≡ true)
Evolves-completed [] [] i c' r e d = cc
Evolves-completed [] (y ∷ cs') i c' r e d = absurd r
Evolves-completed (x ∷ cs) [] i c' r e d = absurd r
Evolves-completed (x ∷ cs) (y ∷ cs') zero c' ((_, _, _, st), r) e d = (x, refl, ground arith)
Evolves-completed (x ∷ cs) (y ∷ cs') (suc i) c' r e d = Evolves-completed cs cs' i c' r.1 e d

module _ (planned : List Chunk) (source : List ℕ) (base : ℕ) where
  -- The chunk planned at a position has been delivered.
  abbrev pub IsDeliveredAt : Dest → ℕ → Type 0
  IsDeliveredAt dest i = (c : Chunk) → get_elem? planned i ≡ some c → IsDelivered source base dest c

  -- A worker that credits or completes a chunk has delivered it, and one that delivers has its bytes.
  abbrev pub Claim : Dest → Pc → Type 0
  Claim dest (delivering slot i hedge payload) =
      (c : Chunk)
      → get_elem? planned i ≡ some c
      → (payload ≡ piece source c) × (length payload ≡ c.length)
  Claim dest (settling slot i n) = IsDeliveredAt dest i
  Claim dest (crediting slot i n) = IsDeliveredAt dest i
  Claim dest (completing slot i) = IsDeliveredAt dest i
  Claim dest _ = Unit {0}

  abbrev pub IsBased : Dest → Type 0
  IsBased (to_file sink) = sink.base_off ≡ base
  IsBased (to_stream sink) = Unit {0}

  pub record SharedInv (s : Scheduler) (dest : Dest) : Type 0 where
    pub tally : Tally s
    pub ranges : SameRanges planned s.chunks
    pub done :
        (i : ℕ) (c : Chunk)
        → get_elem? s.chunks i ≡ some c
        → is_completed c.state ≡ true
        → IsDeliveredAt dest i
    pub based : IsBased dest

  -- A move of the scheduler that completes nothing.
  pub evolve-SharedInv :
      (s t : Scheduler) (dest : Dest)
      → SharedInv s dest
      → Tally t
      → Evolves s.chunks t.chunks
      → SharedInv t dest
  evolve-SharedInv s t dest v tally e = record {
    tally = tally;
    ranges = Evolves-SameRanges planned s.chunks t.chunks v.ranges e;
    done = λ i c' at d.
        let (c, at_old, d_old) = Evolves-completed s.chunks t.chunks i c' e at d in
        v.done i c at_old d_old;
    based = v.based;
  }
