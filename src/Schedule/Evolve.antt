-- ===== src/Schedule/Evolve.antt =====
-- What the scheduler's methods leave alone in the chunk table: no range changes, and a chunk becomes
-- completed only by MarkComplete.
use pget.Base.{
  ℕ, zero, suc, ◌≡◌, refl, subst, ◌⊎◌, inl, inr, ◌&&◌, Bool, true, false, List, [], ◌∷◌, Option,
  none, some, arith, leb, ltb, length, get_elem?, modify, Bool-cases,
}
use pget.Base.Int.{at_least}
use pget.Chunk.{Chunk, State, pending}
use pget.Schedule.State.{Scheduler, Exhausted, is_completed, is_active}
use pget.Schedule.Assign.{
  next_assignment, check_fatal, offer, cleanup, try_assign, assign_next, assign_chunk,
  start_attempt, slot_suppressed,
}
use pget.Schedule.Assignment.{cleanup-chunks}
use pget.Schedule.Report.{
  mark_complete, complete_found, complete_active, set_completed, mark_failed, fail_found,
  fail_active, set_retry, set_failed, on_admission_failure,
}
use pget.Schedule.Hedge.{
  SlotSearch, found, no_slot, panics, hedge_at, hedge_chunk, unhedge_chunk, start_hedge, find_slot,
  cancel_hedge,
}
use pget.Schedule.Steps.{state_of}

abbrev pub is_pending : State → Bool
is_pending pending = true
is_pending _ = false

-- The same range, and a state that is neither newly completed nor newly pending.
abbrev pub Keeps : Chunk → Chunk → Type 0
Keeps c c' =
    (c'.index ≡ c.index)
    × (c'.start ≡ c.start)
    × (c'.length ≡ c.length)
    × ((c'.state ≡ c.state) ⊎ ((is_completed c'.state ≡ false) × (is_pending c'.state ≡ false)))

abbrev pub Evolves : List Chunk → List Chunk → Type 0
Evolves [] [] = Unit {0}
Evolves [] (c' ∷ cs') = ⊥
Evolves (c ∷ cs) [] = ⊥
Evolves (c ∷ cs) (c' ∷ cs') = Keeps c c' × Evolves cs cs'

pub Evolves-refl : (cs : List Chunk) → Evolves cs cs
Evolves-refl [] = tt
Evolves-refl (c ∷ cs) = ((refl, refl, refl, inl refl), Evolves-refl cs)

Evolves-modify :
    (cs : List Chunk) (i : ℕ) (f : Chunk → Chunk)
    → ((c : Chunk) → Keeps c (f c))
    → Evolves cs (modify cs i f)
Evolves-modify [] i f k = tt
Evolves-modify (c ∷ cs) zero f k = (k c, Evolves-refl cs)
Evolves-modify (c ∷ cs) (suc i) f k = ((refl, refl, refl, inl refl), Evolves-modify cs i f k)

assign_chunk-Evolves :
    (s : Scheduler) (now i slot mark : ℕ)
    → Evolves s.chunks (assign_chunk (record s { next_undispatched = mark }) now i slot).chunks
unfolding assign_chunk
assign_chunk-Evolves s now i slot mark =
    Evolves-modify s.chunks i (start_attempt now slot) (λ c. (refl, refl, refl, inr (refl, refl)))

pub assign_next-Evolves :
    (s : Scheduler) (now slot : ℕ) (o : Option ℕ)
    → Evolves s.chunks (assign_next s now slot o).0.chunks
assign_next-Evolves s now slot (some i) =
    unfold assign_next in assign_chunk-Evolves s now i slot s.next_undispatched
assign_next-Evolves s now slot none =
    elim (Bool-cases (ltb s.next_undispatched (length s.chunks))) [
      | inl e ↦
          unfold assign_next in
          rw e (assign_chunk-Evolves s now s.next_undispatched slot (suc s.next_undispatched))
      | inr e ↦ unfold assign_next in rw e (Evolves-refl s.chunks)
    ]

offer-Evolves :
    (cs : List Chunk) (r : Scheduler × Option ℕ)
    → Evolves cs r.0.chunks
    → Evolves cs (offer r).0.chunks
unfolding offer
offer-Evolves cs (s, none) h = h
offer-Evolves cs (s, some i) h = h

try_assign-Evolves :
    (s : Scheduler) (now slot : ℕ) → Evolves s.chunks (try_assign s now slot).0.chunks
try_assign-Evolves s now slot = elim (Bool-cases (slot_suppressed now (get_elem? s.workers slot))) [
  | inl e ↦ unfold try_assign in rw e (Evolves-refl s.chunks)
  | inr e ↦ elim (Bool-cases (at_least s.active_count s.effective_target)) [
    | inl full ↦ unfold try_assign in rw (e, full) (Evolves-refl s.chunks)
    | inr room ↦ unfold try_assign in rw (e, room) (assign_next-Evolves s now slot _)
  ]
]

check_fatal-Evolves :
    (s : Scheduler) (now slot : ℕ) (e : Option Exhausted)
    → Evolves s.chunks (check_fatal s now slot e).0.chunks
check_fatal-Evolves s now slot (some e) = unfold check_fatal in Evolves-refl s.chunks
check_fatal-Evolves s now slot none = elim (Bool-cases (leb (length s.chunks) s.completed_count)) [
  | inl e ↦ unfold check_fatal in rw e (Evolves-refl s.chunks)
  | inr e ↦
      unfold check_fatal in
      rw e (offer-Evolves s.chunks (try_assign s now slot) (try_assign-Evolves s now slot))
]

pub next_assignment-Evolves :
    (s : Scheduler) (now slot : ℕ) → Evolves s.chunks (next_assignment s now slot).0.chunks
unfolding next_assignment
next_assignment-Evolves s now slot =
    subst (λ cs. Evolves cs (next_assignment s now slot).0.chunks) (cleanup-chunks s now)
      (elim (Bool-cases (cleanup s now).cancelled) [
        | inl off ↦ rw off (Evolves-refl (cleanup s now).chunks)
        | inr on ↦ rw on (check_fatal-Evolves (cleanup s now) now slot _)
      ])

fail_found-Evolves :
    (s : Scheduler) (now i : ℕ) (retryable : Bool) (o : Option Chunk)
    → Evolves s.chunks (fail_found s now i retryable o).chunks
fail_found-Evolves s now i retryable none = unfold fail_found in Evolves-refl s.chunks
fail_found-Evolves s now i retryable (some c) = elim (Bool-cases (is_active c.state)) [
  | inl e ↦ elim (Bool-cases (retryable && ltb c.attempts s.cfg.max_tries)) [
    | inl again ↦
        unfold fail_found fail_active in
        rw (e, again)
          (Evolves-modify s.chunks i (set_retry now) (λ c. (refl, refl, refl, inr (refl, refl))))
    | inr over ↦
        unfold fail_found fail_active in
        rw (e, over)
          (Evolves-modify s.chunks i set_failed (λ c. (refl, refl, refl, inr (refl, refl))))
  ]
  | inr e ↦ unfold fail_found in rw e (Evolves-refl s.chunks)
]

pub mark_failed-Evolves :
    (s : Scheduler) (now i : ℕ) (retryable : Bool)
    → Evolves s.chunks (mark_failed s now i retryable).chunks
unfolding mark_failed
mark_failed-Evolves s now i retryable = fail_found-Evolves s now i retryable _

pub on_admission_failure-chunks :
    (s : Scheduler) (now slot : ℕ) → (on_admission_failure s now slot).chunks ≡ s.chunks
unfolding on_admission_failure
on_admission_failure-chunks s now slot = ground arith

hedge_at-Evolves :
    (s : Scheduler) (i : ℕ) (search_result : SlotSearch)
    → Evolves s.chunks (state_of s (hedge_at s i search_result)).chunks
unfolding hedge_at
hedge_at-Evolves s i (found slot) =
    Evolves-modify s.chunks i hedge_chunk (λ c. (refl, refl, refl, inl refl))
hedge_at-Evolves s i no_slot =
    Evolves-modify s.chunks i unhedge_chunk (λ c. (refl, refl, refl, inl refl))
hedge_at-Evolves s i panics = Evolves-refl s.chunks

-- A start of a duplicate, also if it panics.
pub start_hedge-Evolves :
    (s : Scheduler) (now i : ℕ) → Evolves s.chunks (state_of s (start_hedge s now i)).chunks
unfolding start_hedge
start_hedge-Evolves s now i = elim (Bool-cases (leb (length s.chunks) i)) [
  | inl e ↦ rw e (Evolves-refl s.chunks)
  | inr e ↦ rw e (hedge_at-Evolves s i (find_slot s.effective_target 0 s now))
]

pub cancel_hedge-chunks : (s : Scheduler) (i : ℕ) → (cancel_hedge s i).chunks ≡ s.chunks
unfolding cancel_hedge
cancel_hedge-chunks s i = ground arith

-- MarkComplete completes the chunk or does nothing.
complete_found-chunks :
    (s : Scheduler) (now i : ℕ) (o : Option Chunk)
    → ((complete_found s now i o).chunks ≡ s.chunks)
      ⊎ ((complete_found s now i o).chunks ≡ modify s.chunks i set_completed)
complete_found-chunks s now i none = unfold complete_found in inl refl
complete_found-chunks s now i (some c) = elim (Bool-cases (is_active c.state)) [
  | inl e ↦ elim (Bool-cases (ltb c.start_time now)) [
    | inl l ↦ inr (unfold complete_found complete_active in rw (e, l) refl)
    | inr l ↦ inr (unfold complete_found complete_active in rw (e, l) refl)
  ]
  | inr e ↦ inl (unfold complete_found in rw e refl)
]

pub mark_complete-chunks :
    (s : Scheduler) (now i : ℕ)
    → ((mark_complete s now i).chunks ≡ s.chunks)
      ⊎ ((mark_complete s now i).chunks ≡ modify s.chunks i set_completed)
unfolding mark_complete
mark_complete-chunks s now i = complete_found-chunks s now i _
