-- ===== src/Schedule/Resume.antt =====
-- A resumed download whose completed chunks are not all in front.
use pget.Base.{
  ℕ, suc, ◌≤◌, ◌≡◌, refl, ◌∙◌, inl, inr, true, false, List, [], ◌∷◌, none, some, arith, ltb, length,
  get_elem?, modify, Bool-cases, length-modify, get_elem?-modify_self, get_elem?-lt, lt→ltb,
}
use pget.Base.Int.{at_least}
use pget.Chunk.{Chunk, completed}
use pget.Schedule.State.{Scheduler, count_state, is_active, is_completed}
use pget.Schedule.Assign.{
  finished, next_assignment, try_assign, assign_chunk, start_attempt, slot_suppressed,
  find_retryable_chunk,
}
use pget.Schedule.Report.{mark_complete, complete_active, set_completed}
use pget.Schedule.Counts.{count_state-modify, AllCompleted}

AllCompleted-count : (cs : List Chunk) → AllCompleted cs → count_state is_completed cs ≡ length cs
AllCompleted-count [] h = refl
AllCompleted-count (c ∷ cs) h = ground (arith, AllCompleted-count cs h.1)

-- What `MarkComplete` does to the counts, for an active chunk.
complete_active-counts :
    (s : Scheduler) (now idx : ℕ) (c : Chunk)
    → get_elem? s.chunks idx ≡ some c
    → is_active c.state ≡ true
    → let t = complete_active s now idx c in
      (t.completed_count ≡ suc s.completed_count)
      × (count_state is_completed t.chunks ≡ suc (count_state is_completed s.chunks))
      × (length t.chunks ≡ length s.chunks)
      × (t.cancelled ≡ s.cancelled)
      × (t.fatal_err ≡ s.fatal_err)
unfolding complete_active
complete_active-counts s now idx c at a =
    let counted : count_state is_completed (modify s.chunks idx set_completed)
        ≡ suc (count_state is_completed s.chunks) =
      ground (arith, count_state-modify is_completed s.chunks idx set_completed c at) in
    let size = length-modify s.chunks idx set_completed in
    elim (Bool-cases (ltb c.start_time now)) [
      | inl e ↦ rw e (refl, counted, size, refl, refl)
      | inr e ↦ rw e (refl, counted, size, refl, refl)
    ]

-- The count alone decides the answer "complete".
next_assignment-finished :
    (t : Scheduler) (now slot : ℕ)
    → t.cancelled ≡ false
    → t.fatal_err ≡ none
    → length t.chunks ≤ t.completed_count
    → (next_assignment t now slot).1 ≡ finished
unfolding next_assignment
next_assignment-finished t now slot on fine all = ground arith

module _ (s : Scheduler) (now later slot : ℕ) (c : Chunk)
    (nothing_waits : find_retryable_chunk now s.chunks ≡ none)
    (slot_free : slot_suppressed now (get_elem? s.workers slot) ≡ false)
    (room : at_least s.active_count s.effective_target ≡ false)
    (at : get_elem? s.chunks s.next_undispatched ≡ some c) (done_before : c.state ≡ completed) where
  taken : Scheduler
  taken =
      assign_chunk (record s { next_undispatched = suc s.next_undispatched }) now
        s.next_undispatched slot

  try_assign-taken : try_assign s now slot ≡ (taken, some s.next_undispatched)
  unfolding try_assign taken
  try_assign-taken =
      rw (slot_free, room, nothing_waits, lt→ltb _ _ (get_elem?-lt s.chunks s.next_undispatched at))
        refl

  taken_at : get_elem? taken.chunks s.next_undispatched ≡ some (start_attempt now slot c)
  unfolding taken assign_chunk
  taken_at = get_elem?-modify_self s.chunks s.next_undispatched (start_attempt now slot) at

  abbrev redone : Scheduler
  redone = mark_complete (try_assign s now slot).0 later s.next_undispatched

  redone-complete_active :
      redone ≡ complete_active taken later s.next_undispatched (start_attempt now slot c)
  unfolding mark_complete
  redone-complete_active = rw (try_assign-taken, taken_at) (unfold start_attempt in refl)

  redone-counts :
      (redone.completed_count ≡ suc s.completed_count)
      × (count_state is_completed redone.chunks ≡ count_state is_completed s.chunks)
      × (length redone.chunks ≡ length s.chunks)
      × (redone.cancelled ≡ s.cancelled)
      × (redone.fatal_err ≡ s.fatal_err)
  redone-counts =
      let counts =
        complete_active-counts taken later s.next_undispatched (start_attempt now slot c) taken_at
          (unfold start_attempt in refl) in
      rw redone-complete_active (
        unfold taken assign_chunk start_attempt in
        (
          counts.0,
          ground (
            arith,
            counts.1,
            count_state-modify is_completed s.chunks s.next_undispatched (start_attempt now slot) c
                at,
          ),
          counts.2 ∙ length-modify s.chunks s.next_undispatched (start_attempt now slot),
          counts.3,
          counts.4,
        ))

  -- When all chunks but one are completed, the next chunk in line is one of the completed ones and
  -- nothing else may be assigned first, then it is downloaded once more, counted twice, and the
  -- scheduler answers "complete" while a chunk is not completed.
  pub resume_finishes_early :
      s.completed_count ≡ count_state is_completed s.chunks
      → suc (count_state is_completed s.chunks) ≡ length s.chunks
      → s.cancelled ≡ false
      → s.fatal_err ≡ none
      → (at_time other : ℕ)
      → ((try_assign s now slot).1 ≡ some s.next_undispatched)
        × ((next_assignment redone at_time other).1 ≡ finished)
        × ¬ AllCompleted redone.chunks
  resume_finishes_early counted one_left on fine at_time other = (
    rw try_assign-taken refl,
    next_assignment-finished redone at_time other (redone-counts.3 ∙ on) (redone-counts.4 ∙ fine)
        (omega (arith, redone-counts)),
    λ all. absurd (omega (arith, AllCompleted-count redone.chunks all, redone-counts)),
  )
