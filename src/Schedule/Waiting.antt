-- ===== src/Schedule/Waiting.antt =====
-- internal/schedule/scheduler.go: why a call of NextAssignment waits.
use pget.Base.{
  ℕ, zero, suc, ◌≡◌, refl, subst, ◌⊎◌, inl, inr, ◌&&◌, Bool, true, false, List, [], ◌∷◌, Option,
  none, some, arith, leb, ltb, ◌==◌, length, get_elem?, Bool-cases, Option-cases,
}
use pget.Base.Int.{at_least}
use pget.Chunk.{Chunk}
use pget.Schedule.State.{Scheduler, Config, Exhausted, new, is_retry_wait}
use pget.Schedule.Assign.{
  waits, next_assignment, check_fatal, offer, cleanup, try_assign, assign_next, slot_suppressed,
  find_retryable_chunk,
}
use pget.Schedule.Assignment.{cleanup-chunks}
use pget.Schedule.Steps.{Reach}
use pget.Schedule.Evolve.{is_pending}
use pget.Schedule.Dispatched.{Dispatched-skip, Dispatched-get, IsSwept, same-IsSwept}
use pget.Schedule.Sweep.{Reach-IsSwept, cleanup-mark}

abbrev IsSweptAll : Option Scheduler → Type 0
IsSweptAll none = Unit {0}
IsSweptAll (some s) = IsSwept s

new-IsSwept :
    (cfg : Config) (cs : List Chunk) (has_sink : Bool) (s : Scheduler)
    → new cfg cs has_sink ≡ some s
    → IsSwept s
new-IsSwept cfg cs has_sink s e =
    let h : IsSweptAll (new cfg cs has_sink) =
      elim (Bool-cases (cfg.stream_mode && has_sink && cfg.split_size == 0)) [
        | inl p ↦ unfold new in rw p tt
        | inr p ↦ unfold new in rw p (Dispatched-skip cs)
      ] in
    subst IsSweptAll e h

find_retryable-none :
    (now : ℕ) (cs : List Chunk) (i : ℕ) (c : Chunk)
    → find_retryable_chunk now cs ≡ none
    → get_elem? cs i ≡ some c
    → (is_retry_wait c.state && leb c.retry_after now) ≡ false
find_retryable-none now [] i c e at = cc
find_retryable-none now (x ∷ cs) zero c e at =
    elim (Bool-cases (is_retry_wait x.state && leb x.retry_after now)) [
      | inl p ↦ absurd (unfold find_retryable_chunk in ground (arith, p, e))
      | inr p ↦ ground (arith, p, at)
    ]
find_retryable-none now (x ∷ cs) (suc i) c e at =
    elim (Bool-cases (is_retry_wait x.state && leb x.retry_after now)) [
      | inl p ↦ absurd (unfold find_retryable_chunk in ground (arith, p, e))
      | inr p ↦ elim (Option-cases (find_retryable_chunk now cs)) [
        | inl rest ↦ find_retryable-none now cs i c rest at
        | inr (k, rest) ↦ absurd (unfold find_retryable_chunk in ground (arith, p, rest, e))
      ]
    ]

-- No slot or target stands in the way, and yet there is no chunk.
assign_next-none :
    (s : Scheduler) (now slot i : ℕ) (c : Chunk) (o : Option ℕ)
    → find_retryable_chunk now s.chunks ≡ o
    → IsSwept s
    → (assign_next s now slot o).1 ≡ none
    → get_elem? s.chunks i ≡ some c
    → (is_pending c.state ≡ false) × ((is_retry_wait c.state && leb c.retry_after now) ≡ false)
assign_next-none s now slot i c (some k) f v e at = absurd (unfold assign_next in ground (arith, e))
assign_next-none s now slot i c none f v e at =
    elim (Bool-cases (ltb s.next_undispatched (length s.chunks))) [
      | inl more ↦ absurd (unfold assign_next in ground (arith, more, e))
      | inr end ↦ (
        Dispatched-get s.next_undispatched s.chunks i c v (ground arith) at,
        find_retryable-none now s.chunks i c f at,
      )
    ]

offer-waits : (r : Scheduler × Option ℕ) → (offer r).1 ≡ waits → r.1 ≡ none
unfolding offer
offer-waits (s, none) e = refl
offer-waits (s, some i) e = absurd (ground (arith, e))

-- The slot rests, the connections are at the target, or the chunk cannot be handed out now.
abbrev pub IsHeldUp : Scheduler → ℕ → ℕ → Chunk → Type 0
IsHeldUp s now slot c =
    (slot_suppressed now (get_elem? s.workers slot) ≡ true)
    ⊎ (at_least s.active_count s.effective_target ≡ true)
    ⊎ ((is_pending c.state ≡ false) × ((is_retry_wait c.state && leb c.retry_after now) ≡ false))

try_assign-none :
    (s : Scheduler) (now slot i : ℕ) (c : Chunk)
    → IsSwept s
    → (try_assign s now slot).1 ≡ none
    → get_elem? s.chunks i ≡ some c
    → IsHeldUp s now slot c
try_assign-none s now slot i c v e at =
    elim (Bool-cases (slot_suppressed now (get_elem? s.workers slot))) [
      | inl rests ↦ inl rests
      | inr free ↦ elim (Bool-cases (at_least s.active_count s.effective_target)) [
        | inl full ↦ inr (inl full)
        | inr room ↦ inr (
            inr (
              assign_next-none s now slot i c (find_retryable_chunk now s.chunks) refl v
                (unfold try_assign in (rw (free, room) at e)) at))
      ]
    ]

check_fatal-waits :
    (s : Scheduler) (now slot i : ℕ) (c : Chunk) (e : Option Exhausted)
    → IsSwept s
    → (check_fatal s now slot e).1 ≡ waits
    → get_elem? s.chunks i ≡ some c
    → IsHeldUp s now slot c
check_fatal-waits s now slot i c (some x) v e at = absurd (unfold check_fatal in ground (arith, e))
check_fatal-waits s now slot i c none v e at =
    elim (Bool-cases (leb (length s.chunks) s.completed_count)) [
      | inl all ↦ absurd (unfold check_fatal in ground (arith, all, e))
      | inr more ↦
          try_assign-none s now slot i c v
            (offer-waits (try_assign s now slot) (unfold check_fatal in (rw more at e))) at
    ]

-- In whatever order the scheduler is called since it was made, a worker is made to wait only for a
-- reason that concerns every chunk: its slot rests after failures, or the running transfers are at the
-- connection target, or the chunk is neither pending nor due for its next attempt. The first two are
-- those of the state behind the clean-up that begins the call.
pub waits-IsHeldUp :
    (cfg : Config) (cs : List Chunk) (has_sink : Bool) (s t : Scheduler) (h now slot i : ℕ)
    (c : Chunk)
    → new cfg cs has_sink ≡ some s
    → Reach s t h
    → (next_assignment t now slot).1 ≡ waits
    → get_elem? t.chunks i ≡ some c
    → IsHeldUp (cleanup t now) now slot c
waits-IsHeldUp cfg cs has_sink s t h now slot i c made r e at =
    let swept = Reach-IsSwept r (new-IsSwept cfg cs has_sink s made) in
    let u : IsSwept (cleanup t now) =
      same-IsSwept t (cleanup t now) (cleanup-mark t now) (cleanup-chunks t now) swept in
    let at' : get_elem? (cleanup t now).chunks i ≡ some c = rw (cleanup-chunks t now) at in
    elim (Bool-cases (cleanup t now).cancelled) [
      | inl off ↦ absurd (unfold next_assignment in ground (arith, off, e))
      | inr on ↦
          check_fatal-waits (cleanup t now) now slot i c (cleanup t now).fatal_err u
            (unfold next_assignment in (rw on at e)) at'
    ]
