-- ===== src/Schedule/Dispatched.antt =====
-- The chunks in front of the mark `next_undispatched` are not pending.
use pget.Base.{
  ℕ, zero, suc, ◌≤◌, ◌≡◌, inl, inr, false, List, [], ◌∷◌, some, arith, length, get_elem?, modify,
  Bool-cases,
}
use pget.Chunk.{Chunk}
use pget.Schedule.State.{Scheduler, skip_completed, is_completed}
use pget.Schedule.Evolve.{Evolves, is_pending}

-- None of the first `n` chunks is pending.
abbrev pub Dispatched : ℕ → List Chunk → Type 0
Dispatched zero cs = Unit {0}
Dispatched (suc n) [] = Unit {0}
Dispatched (suc n) (c ∷ cs) = (is_pending c.state ≡ false) × Dispatched n cs

Evolves-Dispatched :
    (n : ℕ) (cs cs' : List Chunk) → Evolves cs cs' → Dispatched n cs → Dispatched n cs'
Evolves-Dispatched zero cs cs' e h = tt
Evolves-Dispatched (suc n) [] [] e h = tt
Evolves-Dispatched (suc n) [] (y ∷ cs') e h = absurd e
Evolves-Dispatched (suc n) (x ∷ cs) [] e h = absurd e
Evolves-Dispatched (suc n) (x ∷ cs) (y ∷ cs') ((_, _, _, st), e) (idle, h) =
    (ground (arith, st, idle), Evolves-Dispatched n cs cs' e h)

module _ (f : Chunk → Chunk) (busy : (c : Chunk) → is_pending (f c).state ≡ false) where
  pub Dispatched-modify :
      (n : ℕ) (cs : List Chunk) (i : ℕ) → Dispatched n cs → Dispatched n (modify cs i f)
  Dispatched-modify zero cs i h = tt
  Dispatched-modify (suc n) [] i h = tt
  Dispatched-modify (suc n) (c ∷ cs) zero h = (busy c, h.1)
  Dispatched-modify (suc n) (c ∷ cs) (suc i) h = (h.0, Dispatched-modify n cs i h.1)

  pub Dispatched-next :
      (n : ℕ) (cs : List Chunk) → Dispatched n cs → Dispatched (suc n) (modify cs n f)
  Dispatched-next zero [] h = tt
  Dispatched-next zero (c ∷ cs) h = (busy c, tt)
  Dispatched-next (suc n) [] h = tt
  Dispatched-next (suc n) (c ∷ cs) h = (h.0, Dispatched-next n cs h.1)

pub Dispatched-skip : (cs : List Chunk) → Dispatched (skip_completed cs) cs
unfolding skip_completed
Dispatched-skip [] = tt
Dispatched-skip (c ∷ cs) = elim (Bool-cases (is_completed c.state)) [
  | inl e ↦ rw e (ground (arith, e), Dispatched-skip cs)
  | inr e ↦ rw e tt
]

pub Dispatched-get :
    (n : ℕ) (cs : List Chunk) (i : ℕ) (c : Chunk)
    → Dispatched n cs
    → length cs ≤ n
    → get_elem? cs i ≡ some c
    → is_pending c.state ≡ false
Dispatched-get n [] i c h le e = cc
Dispatched-get zero (x ∷ cs) i c h le e = absurd (omega arith)
Dispatched-get (suc n) (x ∷ cs) zero c h le e = ground (arith, h.0, e)
Dispatched-get (suc n) (x ∷ cs) (suc i) c h le e = Dispatched-get n cs i c h.1 (omega arith) e

abbrev pub IsSwept : Scheduler → Type 0
IsSwept s = Dispatched s.next_undispatched s.chunks

-- The mark stays, and nothing becomes pending.
pub keeps-IsSwept :
    (s t : Scheduler)
    → t.next_undispatched ≡ s.next_undispatched
    → Evolves s.chunks t.chunks
    → IsSwept s
    → IsSwept t
keeps-IsSwept s t mark e h = rw mark (Evolves-Dispatched s.next_undispatched s.chunks t.chunks e h)

pub same-IsSwept :
    (s t : Scheduler)
    → t.next_undispatched ≡ s.next_undispatched
    → t.chunks ≡ s.chunks
    → IsSwept s
    → IsSwept t
same-IsSwept s t mark e h = rw (mark, e) h
