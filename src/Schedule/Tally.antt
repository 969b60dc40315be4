-- ===== src/Schedule/Tally.antt =====
-- The completed chunks are counted and the chunks behind the mark are pending, whoever calls the
-- scheduler in whatever order: unlike the count of running transfers, this needs no discipline in
-- the cancelling of duplicates.
use pget.Base.{
  ℕ, suc, ◌+◌, ◌<◌, ◌≡◌, ◌≢◌, refl, sym, ◌∙◌, inl, inr, ◌&&◌, Bool, true, Option, none, some, arith,
  leb, ltb, length, get_elem?, modify, Bool-cases, Option-cases, get_elem?-some, ltb→lt,
}
use pget.Base.Int.{at_least}
use pget.Chunk.{Chunk, pending}
use pget.Schedule.State.{Scheduler, Exhausted, is_completed, is_active, count_state}
use pget.Schedule.Assign.{
  next_assignment, check_fatal, offer, cleanup, try_assign, assign_next, assign_chunk,
  start_attempt, slot_suppressed, find_retryable_chunk,
}
use pget.Schedule.Report.{
  mark_complete, complete_found, complete_active, set_completed, mark_failed, fail_found,
  fail_active, set_retry, set_failed, on_admission_failure, on_worker_success, cancel,
}
use pget.Schedule.Hedge.{
  SlotSearch, found, no_slot, panics, hedge_at, hedge_chunk, unhedge_chunk, start_hedge, find_slot,
  cancel_hedge,
}
use pget.Schedule.Counts.{
  bit, count_state-modify, count_state-modify_same, PendingFrom, PendingFrom-suc, PendingFrom-get,
  PendingFrom-modify, PendingFrom-modify_same,
}
use pget.Schedule.Invariant.{Inv, find_retryable_waits}
use pget.Schedule.Steps.{state_of}

pub record Tally (s : Scheduler) : Type 0 where
  pub completed_counted : s.completed_count ≡ count_state is_completed s.chunks
  pub untouched : PendingFrom s.next_undispatched s.chunks

pub Inv-Tally : (s : Scheduler) (h : ℕ) → Inv s h → Tally s
Inv-Tally s h v = record { completed_counted = v.completed_counted; untouched = v.untouched }

-- A chunk that is not pending stands before the mark.
before_mark :
    (s : Scheduler) (i : ℕ) (c : Chunk)
    → Tally s
    → get_elem? s.chunks i ≡ some c
    → c.state ≢ pending
    → i < s.next_undispatched
before_mark s i c v e ne = elim (Bool-cases (ltb i s.next_undispatched)) [
  | inl before ↦ ltb→lt _ _ before
  | inr after ↦
      absurd (ne (PendingFrom-get s.next_undispatched s.chunks i c v.untouched (ground arith) e))
]

-- A chunk before the mark is changed, and the completed ones are counted anew.
changed-Tally :
    (s t : Scheduler) (i : ℕ) (f : Chunk → Chunk) (c : Chunk)
    → Tally s
    → get_elem? s.chunks i ≡ some c
    → i < s.next_undispatched
    → t.chunks ≡ modify s.chunks i f
    → t.next_undispatched ≡ s.next_undispatched
    → t.completed_count + bit (is_completed c.state)
      ≡ s.completed_count + bit (is_completed (f c).state)
    → Tally t
changed-Tally s t i f c v at before chunks mark count = record {
  completed_counted = rw chunks (
      ground
        (arith, count, v.completed_counted, count_state-modify is_completed s.chunks i f c at));
  untouched =
      rw (chunks, mark) (PendingFrom-modify s.next_undispatched s.chunks i f v.untouched before);
}

-- A change that leaves all states alone.
same_states-Tally :
    (s t : Scheduler) (i : ℕ) (f : Chunk → Chunk)
    → Tally s
    → ((c : Chunk) → (f c).state ≡ c.state)
    → t.chunks ≡ modify s.chunks i f
    → t.next_undispatched ≡ s.next_undispatched
    → t.completed_count ≡ s.completed_count
    → Tally t
same_states-Tally s t i f v same chunks mark count = record {
  completed_counted =
      rw (chunks, count)
        (v.completed_counted ∙ sym (count_state-modify_same is_completed s.chunks i f same));
  untouched =
      rw (chunks, mark) (PendingFrom-modify_same s.next_undispatched s.chunks i f same v.untouched);
}

-- No change at all in what is tallied.
same-Tally :
    (s t : Scheduler)
    → Tally s
    → t.chunks ≡ s.chunks
    → t.next_undispatched ≡ s.next_undispatched
    → t.completed_count ≡ s.completed_count
    → Tally t
same-Tally s t v chunks mark count = record {
  completed_counted = rw (chunks, count) v.completed_counted;
  untouched = rw (chunks, mark) v.untouched;
}

assign_next-Tally :
    (s : Scheduler) (now slot : ℕ)
    → Tally s
    → Tally (assign_next s now slot (find_retryable_chunk now s.chunks)).0
assign_next-Tally s now slot v = elim (Option-cases (find_retryable_chunk now s.chunks)) [
  | inl e ↦ rw e (elim (Bool-cases (ltb s.next_undispatched (length s.chunks))) [
    | inl more ↦
        let (c, at) = get_elem?-some s.chunks s.next_undispatched (ltb→lt _ _ more) in
        let idle : c.state ≡ pending =
          PendingFrom-get s.next_undispatched s.chunks _ c v.untouched (omega arith) at in
        unfold assign_next assign_chunk in
        rw more (
          changed-Tally (record s { next_undispatched = suc s.next_undispatched }) _
            s.next_undispatched (start_attempt now slot) c
            (record {
              completed_counted = v.completed_counted;
              untouched = PendingFrom-suc s.next_undispatched s.chunks v.untouched;
            })
            at (omega arith) refl refl (rw idle refl))
    | inr end ↦ unfold assign_next in rw end v
  ])
  | inr (i, e) ↦
      let (c, at, waits) = find_retryable_waits now s.chunks i e in
      rw e (
        unfold assign_next assign_chunk in
        changed-Tally s _ i (start_attempt now slot) c v at
          (before_mark s i c v at (λ p. ground (arith, waits, p))) refl refl (rw waits refl))
]

try_assign-Tally : (s : Scheduler) (now slot : ℕ) → Tally s → Tally (try_assign s now slot).0
try_assign-Tally s now slot v = elim (Bool-cases (slot_suppressed now (get_elem? s.workers slot))) [
  | inl e ↦ unfold try_assign in rw e v
  | inr e ↦ elim (Bool-cases (at_least s.active_count s.effective_target)) [
    | inl full ↦ unfold try_assign in rw (e, full) v
    | inr room ↦ unfold try_assign in rw (e, room) (assign_next-Tally s now slot v)
  ]
]

offer-Tally : (r : Scheduler × Option ℕ) → Tally r.0 → Tally (offer r).0
unfolding offer
offer-Tally (s, none) v = v
offer-Tally (s, some i) v = v

check_fatal-Tally :
    (s : Scheduler) (now slot : ℕ) (e : Option Exhausted)
    → Tally s
    → Tally (check_fatal s now slot e).0
check_fatal-Tally s now slot (some e) v = unfold check_fatal in v
check_fatal-Tally s now slot none v = elim (Bool-cases (leb (length s.chunks) s.completed_count)) [
  | inl e ↦ unfold check_fatal in rw e v
  | inr e ↦
      unfold check_fatal in
      rw e (offer-Tally (try_assign s now slot) (try_assign-Tally s now slot v))
]

cleanup-Tally : (s : Scheduler) (now : ℕ) → Tally s → Tally (cleanup s now)
unfolding cleanup
cleanup-Tally s now v = ground arith

pub next_assignment-Tally :
    (s : Scheduler) (now slot : ℕ) → Tally s → Tally (next_assignment s now slot).0
unfolding next_assignment
next_assignment-Tally s now slot v =
    let v' = cleanup-Tally s now v in
    elim (Bool-cases (cleanup s now).cancelled) [
      | inl off ↦ rw off v'
      | inr on ↦ rw on (check_fatal-Tally (cleanup s now) now slot _ v')
    ]

is_active-ne-pending : (c : Chunk) → is_active c.state ≡ true → c.state ≢ pending
is_active-ne-pending c e p = ground (arith, e, p)

complete_found-Tally :
    (s : Scheduler) (now i : ℕ) (o : Option Chunk)
    → get_elem? s.chunks i ≡ o
    → Tally s
    → Tally (complete_found s now i o)
complete_found-Tally s now i none at v = unfold complete_found in v
complete_found-Tally s now i (some c) at v = elim (Bool-cases (is_active c.state)) [
  | inr e ↦ unfold complete_found in rw e v
  | inl e ↦
      let before = before_mark s i c v at (is_active-ne-pending c e) in
      elim (Bool-cases (ltb c.start_time now)) [
        | inl l ↦
            unfold complete_found complete_active in
            rw (e, l)
              (changed-Tally s _ i set_completed c v at before refl refl (ground (arith, e)))
        | inr l ↦
            unfold complete_found complete_active in
            rw (e, l)
              (changed-Tally s _ i set_completed c v at before refl refl (ground (arith, e)))
      ]
]

pub mark_complete-Tally : (s : Scheduler) (now i : ℕ) → Tally s → Tally (mark_complete s now i)
unfolding mark_complete
mark_complete-Tally s now i v = complete_found-Tally s now i _ refl v

fail_found-Tally :
    (s : Scheduler) (now i : ℕ) (retryable : Bool) (o : Option Chunk)
    → get_elem? s.chunks i ≡ o
    → Tally s
    → Tally (fail_found s now i retryable o)
fail_found-Tally s now i retryable none at v = unfold fail_found in v
fail_found-Tally s now i retryable (some c) at v = elim (Bool-cases (is_active c.state)) [
  | inr e ↦ unfold fail_found in rw e v
  | inl e ↦
      let before = before_mark s i c v at (is_active-ne-pending c e) in
      elim (Bool-cases (retryable && ltb c.attempts s.cfg.max_tries)) [
        | inl again ↦
            unfold fail_found fail_active in
            rw (e, again)
              (changed-Tally s _ i (set_retry now) c v at before refl refl (ground (arith, e)))
        | inr over ↦
            unfold fail_found fail_active in
            rw (e, over)
              (changed-Tally s _ i set_failed c v at before refl refl (ground (arith, e)))
      ]
]

pub mark_failed-Tally :
    (s : Scheduler) (now i : ℕ) (retryable : Bool) → Tally s → Tally (mark_failed s now i retryable)
unfolding mark_failed
mark_failed-Tally s now i retryable v = fail_found-Tally s now i retryable _ refl v

pub on_admission_failure-Tally :
    (s : Scheduler) (now slot : ℕ) → Tally s → Tally (on_admission_failure s now slot)
unfolding on_admission_failure
on_admission_failure-Tally s now slot v = ground arith

pub on_worker_success-Tally :
    (s : Scheduler) (now slot bytes d : ℕ) → Tally s → Tally (on_worker_success s now slot bytes d)
unfolding on_worker_success
on_worker_success-Tally s now slot bytes d v = same-Tally s _ v refl refl refl

pub cancel-Tally : (s : Scheduler) → Tally s → Tally (cancel s)
unfolding cancel
cancel-Tally s v = same-Tally s _ v refl refl refl

hedge_at-Tally :
    (s : Scheduler) (i : ℕ) (search_result : SlotSearch)
    → Tally s
    → Tally (state_of s (hedge_at s i search_result))
unfolding hedge_at
hedge_at-Tally s i (found slot) v = same_states-Tally s _ i hedge_chunk v (λ c. refl) refl refl refl
hedge_at-Tally s i no_slot v = same_states-Tally s _ i unhedge_chunk v (λ c. refl) refl refl refl
hedge_at-Tally s i panics v = v

pub start_hedge-Tally :
    (s : Scheduler) (now i : ℕ) → Tally s → Tally (state_of s (start_hedge s now i))
unfolding start_hedge
start_hedge-Tally s now i v = elim (Bool-cases (leb (length s.chunks) i)) [
  | inl e ↦ rw e v
  | inr e ↦ rw e (hedge_at-Tally s i (find_slot s.effective_target 0 s now) v)
]

pub cancel_hedge-Tally : (s : Scheduler) (i : ℕ) → Tally s → Tally (cancel_hedge s i)
unfolding cancel_hedge
cancel_hedge-Tally s i v = ground arith
