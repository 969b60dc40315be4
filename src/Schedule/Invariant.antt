-- ===== src/Schedule/Invariant.antt =====
-- The counters of the scheduler against its chunk table, and the target against its bounds.
use pget.Base.{
  ℕ, zero, suc, ◌+◌, ◌≤◌, ◌<◌, ◌≡◌, refl, inl, inr, true, false, List, [], ◌∷◌, Option, none, some,
  arith, ltb, leb, length, get_elem?, Option-cases, Bool-cases, get_elem?-some, ltb→lt,
}
use pget.Base.Int.{pos, at_least}
use pget.Chunk.{Chunk, State, pending, retry_wait}
use pget.Schedule.State.{Scheduler, Exhausted, count_state, is_active, is_completed, is_retry_wait}
use pget.Schedule.Assign.{
  assign_chunk, assign_next, start_attempt, try_assign, find_retryable_chunk, cleanup,
  slot_suppressed, next_assignment, check_fatal, offer,
}
use pget.Schedule.Counts.{
  count_state-modify, PendingFrom, PendingFrom-suc, PendingFrom-get, PendingFrom-modify,
}

-- `hedges` duplicates are running.
pub record Inv (s : Scheduler) (hedges : ℕ) : Type 0 where
  pub completed_counted : s.completed_count ≡ count_state is_completed s.chunks
  pub active_counted : s.active_count ≡ pos (count_state is_active s.chunks + hedges)
  pub untouched : PendingFrom s.next_undispatched s.chunks
  pub target_positive : 1 ≤ s.effective_target

is_retry_wait-eq : (s : State) → is_retry_wait s ≡ true → s ≡ retry_wait
is_retry_wait-eq s h = ground arith

pub find_retryable_waits :
    (now : ℕ) (cs : List Chunk) (i : ℕ)
    → find_retryable_chunk now cs ≡ some i
    → (c : Chunk) × (get_elem? cs i ≡ some c) × (c.state ≡ retry_wait)
unfolding find_retryable_chunk
find_retryable_waits now [] i h = cc
find_retryable_waits now (c ∷ cs) zero h = (
  c,
  refl,
  elim (Option-cases (find_retryable_chunk now cs)) [
    | inl e ↦ ground (arith, e, is_retry_wait-eq c.state)
    | inr (j, e) ↦ ground (arith, e, is_retry_wait-eq c.state)
  ],
)
find_retryable_waits now (c ∷ cs) (suc i) h = elim (Option-cases (find_retryable_chunk now cs)) [
  | inl e ↦ absurd (ground (arith, e))
  | inr (j, e) ↦ find_retryable_waits now cs i (ground (arith, e))
]

assign_chunk-Inv :
    (s : Scheduler) (now i slot hedges : ℕ) (c : Chunk)
    → Inv s hedges
    → get_elem? s.chunks i ≡ some c
    → is_active c.state ≡ false
    → is_completed c.state ≡ false
    → i < s.next_undispatched
    → Inv (assign_chunk s now i slot) hedges
unfolding assign_chunk
assign_chunk-Inv s now i slot hedges c v e a d k = record {
  completed_counted = ground (
    arith,
    v.completed_counted,
    count_state-modify is_completed s.chunks i (start_attempt now slot) c e,
  );
  active_counted = ground (
    arith,
    v.active_counted,
    count_state-modify is_active s.chunks i (start_attempt now slot) c e,
  );
  untouched = PendingFrom-modify s.next_undispatched s.chunks i _ v.untouched k;
  target_positive = v.target_positive;
}

assign_retry-Inv :
    (s : Scheduler) (now slot i hedges : ℕ)
    → Inv s hedges
    → find_retryable_chunk now s.chunks ≡ some i
    → Inv (assign_chunk s now i slot) hedges
assign_retry-Inv s now slot i hedges v e =
    let (c, at, waits) = find_retryable_waits now s.chunks i e in
    elim (Bool-cases (ltb i s.next_undispatched)) [
      | inl before ↦
          assign_chunk-Inv s now i slot hedges c v at (rw waits) (rw waits) (ltb→lt _ _ before)
      | inr after ↦ absurd (
          ground
            (arith, PendingFrom-get s.next_undispatched s.chunks i c v.untouched (ground arith) at))
    ]

assign_fresh-Inv :
    (s : Scheduler) (now slot hedges : ℕ)
    → Inv s hedges
    → s.next_undispatched < length s.chunks
    → Inv
        (assign_chunk
          (record s { next_undispatched = suc s.next_undispatched })
          now
          s.next_undispatched
          slot)
        hedges
assign_fresh-Inv s now slot hedges v h =
    let (c, at) = get_elem?-some s.chunks s.next_undispatched h in
    let idle : c.state ≡ pending =
      PendingFrom-get s.next_undispatched s.chunks _ c v.untouched (omega arith) at in
    assign_chunk-Inv _ now s.next_undispatched slot hedges c
      (record {
        completed_counted = v.completed_counted;
        active_counted = v.active_counted;
        untouched = PendingFrom-suc s.next_undispatched s.chunks v.untouched;
        target_positive = v.target_positive;
      })
      at (rw idle) (rw idle) (omega arith)

assign_next-Inv :
    (s : Scheduler) (now slot hedges : ℕ)
    → Inv s hedges
    → Inv (assign_next s now slot (find_retryable_chunk now s.chunks)).0 hedges
assign_next-Inv s now slot hedges v = elim (Option-cases (find_retryable_chunk now s.chunks)) [
  | inl e ↦ rw e (elim (Bool-cases (ltb s.next_undispatched (length s.chunks))) [
    | inl more ↦
        unfold assign_next in rw more (assign_fresh-Inv s now slot hedges v (ltb→lt _ _ more))
    | inr end ↦ unfold assign_next in rw end v
  ])
  | inr (i, e) ↦ rw e (unfold assign_next in assign_retry-Inv s now slot i hedges v e)
]

pub try_assign-Inv :
    (s : Scheduler) (now slot hedges : ℕ) → Inv s hedges → Inv (try_assign s now slot).0 hedges
unfolding try_assign
try_assign-Inv s now slot hedges v =
    elim (Bool-cases (slot_suppressed now (get_elem? s.workers slot))) [
      | inl e ↦ rw e v
      | inr e ↦ rw e (elim (Bool-cases (at_least s.active_count s.effective_target)) [
        | inl full ↦ rw full v
        | inr room ↦ rw room (assign_next-Inv s now slot hedges v)
      ])
    ]

pub cleanup-Inv : (s : Scheduler) (now hedges : ℕ) → Inv s hedges → Inv (cleanup s now) hedges
unfolding cleanup
cleanup-Inv s now hedges v = ground arith

offer-Inv : (r : Scheduler × Option ℕ) (hedges : ℕ) → Inv r.0 hedges → Inv (offer r).0 hedges
unfolding offer
offer-Inv (s, none) hedges v = v
offer-Inv (s, some i) hedges v = v

check_fatal-Inv :
    (s : Scheduler) (now slot hedges : ℕ) (e : Option Exhausted)
    → Inv s hedges
    → Inv (check_fatal s now slot e).0 hedges
unfolding check_fatal
check_fatal-Inv s now slot hedges (some e) v = v
check_fatal-Inv s now slot hedges none v =
    elim (Bool-cases (leb (length s.chunks) s.completed_count)) [
      | inl all ↦ rw all v
      | inr some_left ↦
          rw some_left
            (offer-Inv (try_assign s now slot) hedges (try_assign-Inv s now slot hedges v))
    ]

pub next_assignment-Inv :
    (s : Scheduler) (now slot hedges : ℕ) → Inv s hedges → Inv (next_assignment s now slot).0 hedges
unfolding next_assignment
next_assignment-Inv s now slot hedges v =
    let v' = cleanup-Inv s now hedges v in
    elim (Bool-cases (cleanup s now).cancelled) [
      | inl off ↦ rw off v'
      | inr on ↦ rw on (check_fatal-Inv (cleanup s now) now slot hedges _ v')
    ]
