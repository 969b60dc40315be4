-- ===== src/Schedule/Attempts.antt =====
-- internal/schedule/scheduler.go: how often a chunk is tried. MarkFailed lets a chunk wait for another
-- attempt only below the configured number, and NextAssignment counts each attempt.
use pget.Base.{
  ℕ, zero, suc, ◌≤◌, ◌<◌, ◌≡◌, ◌⊎◌, ◌∙◌, sym, refl, ap, subst, inl, inr, ◌&&◌, Bool, true, false,
  List, [], ◌∷◌, Option, none, some, arith, ltb, length, get_elem?, modify, Bool-cases,
  Option-cases, some-inj,
}
use pget.Chunk.{Chunk, State, completed, failed}
use pget.Schedule.State.{Scheduler, is_active, is_retry_wait}
use pget.Schedule.Assign.{
  next_assignment, cleanup, restore_slot, assign_next, assign_chunk, start_attempt,
  find_retryable_chunk,
}
use pget.Schedule.Report.{
  mark_complete, complete_found, complete_active, set_completed, mark_failed, fail_found,
  fail_active, set_retry, set_failed, on_admission_failure, on_worker_success, cancel,
}
use pget.Schedule.Hedge.{cancel_hedge}
use pget.Schedule.Invariant.{find_retryable_waits}
use pget.Schedule.Sweep.{next_assignment-elim}

-- The attempts of the chunk at a position, with `mark` the first that has not been dispatched.
abbrev pub IsWithin : ℕ → ℕ → ℕ → Chunk → Type 0
IsWithin tries mark i c =
    (c.attempts ≤ tries)
    × (is_retry_wait c.state ≡ true → c.attempts < tries)
    × (mark ≤ i → (c.attempts ≡ 0) × (is_retry_wait c.state ≡ false) × (is_active c.state ≡ false))

pub record Bounded (tries : ℕ) (s : Scheduler) : Type 0 where
  pub configured : s.cfg.max_tries ≡ tries
  pub within :
      (i : ℕ) (c : Chunk) → get_elem? s.chunks i ≡ some c → IsWithin tries s.next_undispatched i c

-- A chunk of a table in which one has been changed.
get_elem?-modify {ℓ} :
    {A : Type ℓ} (xs : List A) (k i : ℕ) (f : A → A) (y : A)
    → get_elem? (modify xs k f) i ≡ some y
    → ((i ≡ k) × ((x : A) × (get_elem? xs i ≡ some x) × (y ≡ f x))) ⊎ (get_elem? xs i ≡ some y)
get_elem?-modify [] k i f y e = cc
get_elem?-modify (x ∷ xs) zero zero f y e = inl (refl, (x, refl, sym (some-inj e)))
get_elem?-modify (x ∷ xs) zero (suc i) f y e = inr e
get_elem?-modify (x ∷ xs) (suc k) zero f y e = inr e
get_elem?-modify (x ∷ xs) (suc k) (suc i) f y e = elim (get_elem?-modify xs k i f y e) [
  | inl (same, found_x) ↦ inl (ap suc same, found_x)
  | inr other ↦ inr other
]

module _ (tries : ℕ) where
  -- One chunk is changed, and perhaps the mark moves on.
  changed-Bounded :
      (s t : Scheduler) (k : ℕ) (f : Chunk → Chunk)
      → Bounded tries s
      → t.cfg.max_tries ≡ s.cfg.max_tries
      → t.chunks ≡ modify s.chunks k f
      → s.next_undispatched ≤ t.next_undispatched
      → ((c : Chunk)
          → get_elem? s.chunks k ≡ some c
          → IsWithin tries s.next_undispatched k c
          → IsWithin tries t.next_undispatched k (f c))
      → Bounded tries t
  changed-Bounded s t k f v cfg chunks mark keeps = record {
    configured = cfg ∙ v.configured;
    within = λ i c at. elim (get_elem?-modify s.chunks k i f c (rw chunks at at)) [
      | inl (same, (x, at_x, is)) ↦
          subst (λ j. IsWithin tries t.next_undispatched j c) (sym same)
            (subst (IsWithin tries t.next_undispatched k) (sym is) (
              keeps x (subst (λ j. get_elem? s.chunks j ≡ some x) same at_x)
                (v.within k x (subst (λ j. get_elem? s.chunks j ≡ some x) same at_x))))
      | inr other ↦
          let (most, waits, untouched) = v.within i c other in
          (most, waits, λ behind. untouched (omega (arith, mark, behind)))
    ];
  }

  same-Bounded :
      (s t : Scheduler)
      → Bounded tries s
      → t.cfg.max_tries ≡ s.cfg.max_tries
      → t.chunks ≡ s.chunks
      → t.next_undispatched ≡ s.next_undispatched
      → Bounded tries t
  same-Bounded s t v cfg chunks mark = record {
    configured = cfg ∙ v.configured;
    within = λ i c at. rw mark (v.within i c (rw chunks at at));
  }

  cleanup-Bounded : (s : Scheduler) (now : ℕ) → Bounded tries s → Bounded tries (cleanup s now)
  cleanup-Bounded s now v =
      same-Bounded s (cleanup s now) v (unfold cleanup restore_slot in ground arith)
        (unfold cleanup restore_slot in ground arith) (unfold cleanup restore_slot in ground arith)

  assign_next-Bounded :
      (s : Scheduler) (now slot : ℕ)
      → 0 < tries
      → Bounded tries s
      → Bounded tries (assign_next s now slot (find_retryable_chunk now s.chunks)).0
  assign_next-Bounded s now slot pos v = elim (Option-cases (find_retryable_chunk now s.chunks)) [
    | inr (i, e) ↦
        let (d, at_d, waiting) = find_retryable_waits now s.chunks i e in
        rw e (
          unfold assign_next assign_chunk in
          changed-Bounded s _ i (start_attempt now slot) v refl refl (omega arith)
            (λ c at (most, waits, untouched).
              let same : d ≡ c = some-inj (sym at_d ∙ at) in
              let is : is_retry_wait c.state ≡ true =
                ap (λ x. is_retry_wait x.state) (sym same) ∙ ap is_retry_wait waiting in
              unfold start_attempt in
              (
                omega (arith, waits is),
                (λ q. cc),
                λ behind. absurd (
                    let (_, not_waiting, _) = untouched behind in
                    let q : true ≡ false = sym is ∙ not_waiting in cc),
              )))
    | inl e ↦ rw e (elim (Bool-cases (ltb s.next_undispatched (length s.chunks))) [
      | inr full ↦ unfold assign_next in rw full v
      | inl more ↦
          unfold assign_next assign_chunk in
          rw more (
            changed-Bounded s _ s.next_undispatched (start_attempt now slot) v refl refl
              (omega arith)
              (λ c at (most, waits, untouched).
                let (none_yet, _, _) = untouched (omega arith) in
                unfold start_attempt in
                (
                  omega (arith, none_yet, pos),
                  (λ q. cc),
                  λ behind. absurd (omega (arith, behind)),
                )))
    ])
  ]

  pub next_assignment-Bounded :
      (s : Scheduler) (now slot : ℕ)
      → 0 < tries
      → Bounded tries s
      → Bounded tries (next_assignment s now slot).0
  next_assignment-Bounded s now slot pos v =
      let v' = cleanup-Bounded s now v in
      next_assignment-elim (Bounded tries) s now slot v'
        (assign_next-Bounded (cleanup s now) now slot pos v')

  -- A chunk whose attempt has ended for good.
  ends-IsWithin :
      (mark i : ℕ) (c : Chunk) (state : State)
      → is_retry_wait state ≡ false
      → is_active state ≡ false
      → IsWithin tries mark i c
      → IsWithin tries mark i (record c { state = state })
  ends-IsWithin mark i c state rests idle (most, waits, untouched) = (
    most,
    (λ q. absurd (let r : true ≡ false = sym q ∙ rests in cc)),
    λ behind. let (none_yet, _, _) = untouched behind in (none_yet, rests, idle),
  )

  complete_found-Bounded :
      (s : Scheduler) (now i : ℕ) (o : Option Chunk)
      → Bounded tries s
      → Bounded tries (complete_found s now i o)
  complete_found-Bounded s now i none v = unfold complete_found in v
  complete_found-Bounded s now i (some c) v = elim (Bool-cases (is_active c.state)) [
    | inr e ↦ unfold complete_found in rw e v
    | inl e ↦ elim (Bool-cases (ltb c.start_time now)) [
      | inl l ↦
          unfold complete_found complete_active in
          rw (e, l)
            (changed-Bounded s _ i set_completed v refl refl (omega arith) (λ d at h.
              unfold set_completed in ends-IsWithin s.next_undispatched i d completed refl refl h))
      | inr l ↦
          unfold complete_found complete_active in
          rw (e, l)
            (changed-Bounded s _ i set_completed v refl refl (omega arith) (λ d at h.
              unfold set_completed in ends-IsWithin s.next_undispatched i d completed refl refl h))
    ]
  ]

  fail_found-Bounded :
      (s : Scheduler) (now i : ℕ) (retryable : Bool) (o : Option Chunk)
      → get_elem? s.chunks i ≡ o
      → Bounded tries s
      → Bounded tries (fail_found s now i retryable o)
  fail_found-Bounded s now i retryable none at v = unfold fail_found in v
  fail_found-Bounded s now i retryable (some c) at v = elim (Bool-cases (is_active c.state)) [
    | inr e ↦ unfold fail_found in rw e v
    | inl e ↦ elim (Bool-cases (retryable && ltb c.attempts s.cfg.max_tries)) [
      | inl again ↦
          unfold fail_found fail_active in
          rw (e, again)
            (changed-Bounded s _ i (set_retry now) v refl refl (omega arith)
              (λ d at_d (most, waits, untouched).
                let same : c ≡ d = some-inj (sym at ∙ at_d) in
                let active : is_active d.state ≡ true =
                  ap (λ x. is_active x.state) (sym same) ∙ e in
                let tried : d.attempts ≡ c.attempts = ap (λ x. x.attempts) (sym same) in
                let below : c.attempts < tries = ground (arith, again, v.configured) in
                unfold set_retry in
                (
                  most,
                  (λ q. omega (arith, below, tried)),
                  λ behind. absurd (
                      let (_, _, idle) = untouched behind in
                      let q : true ≡ false = sym active ∙ idle in cc),
                )))
      | inr over ↦
          unfold fail_found fail_active in
          rw (e, over)
            (changed-Bounded s _ i set_failed v refl refl (omega arith) (λ d at_d h.
              unfold set_failed in ends-IsWithin s.next_undispatched i d failed refl refl h))
    ]
  ]

  pub mark_complete-Bounded :
      (s : Scheduler) (now i : ℕ) → Bounded tries s → Bounded tries (mark_complete s now i)
  unfolding mark_complete
  mark_complete-Bounded s now i v = complete_found-Bounded s now i (get_elem? s.chunks i) v

  pub mark_failed-Bounded :
      (s : Scheduler) (now i : ℕ) (retryable : Bool)
      → Bounded tries s
      → Bounded tries (mark_failed s now i retryable)
  unfolding mark_failed
  mark_failed-Bounded s now i retryable v =
      fail_found-Bounded s now i retryable (get_elem? s.chunks i) refl v

  pub on_admission_failure-Bounded :
      (s : Scheduler) (now slot : ℕ)
      → Bounded tries s
      → Bounded tries (on_admission_failure s now slot)
  on_admission_failure-Bounded s now slot v =
      same-Bounded s _ v (unfold on_admission_failure in ground arith)
        (unfold on_admission_failure in ground arith) (unfold on_admission_failure in ground arith)

  pub on_worker_success-Bounded :
      (s : Scheduler) (now slot bytes d : ℕ)
      → Bounded tries s
      → Bounded tries (on_worker_success s now slot bytes d)
  unfolding on_worker_success
  on_worker_success-Bounded s now slot bytes d v = same-Bounded s _ v refl refl refl

  pub cancel_hedge-Bounded :
      (s : Scheduler) (i : ℕ) → Bounded tries s → Bounded tries (cancel_hedge s i)
  cancel_hedge-Bounded s i v =
      same-Bounded s (cancel_hedge s i) v (unfold cancel_hedge in ground arith)
        (unfold cancel_hedge in ground arith) (unfold cancel_hedge in ground arith)

  pub cancel-Bounded : (s : Scheduler) → Bounded tries s → Bounded tries (cancel s)
  unfolding cancel
  cancel-Bounded s v = same-Bounded s _ v refl refl refl
