-- ===== src/Schedule/Hedge.antt =====
-- internal/schedule/scheduler.go: the speculative duplicate of the chunk that blocks the stream.
use pget.Base.{
  ℕ, zero, suc, ◌-◌, ◌*◌, ◌/◌, Bool, true, false, not, ◌&&◌, ◌||◌, List, [], ◌∷◌, Option, none,
  some, ◌==◌, ltb, leb, if◌then◌else◌, length, get_elem?, modify, drop,
}
use pget.Base.Int64.{add64, lt64}
use pget.Base.Int.{increment, decrement, at_least}
use pget.Chunk.{Chunk, State, completed, written}
use pget.Schedule.Stats.{WorkerStats, is_suppressed}
use pget.Schedule.State.{Scheduler, is_active, count_state}

-- `sort.Slice` by `<`: any sort gives this list.
unfoldable pub insert_sorted : ℕ → List ℕ → List ℕ
insert_sorted d [] = d ∷ []
insert_sorted d (e ∷ es) = if ltb e d then e ∷ insert_sorted d es else d ∷ e ∷ es

unfoldable pub sorted : List ℕ → List ℕ
unfolding insert_sorted
sorted [] = []
sorted (d ∷ ds) = insert_sorted d (sorted ds)

abbrev pub or_zero : Option ℕ → ℕ
or_zero none = 0
or_zero (some d) = d

-- `sorted[len(sorted)/2]`, and 0 for no duration.
unfoldable pub rolling_median : List ℕ → ℕ
unfolding sorted
rolling_median ds = or_zero (get_elem? (sorted ds) (length (sorted ds) / 2))

-- What the scheduler reads of the stream sink.
pub record SinkReadings : Type 0 where
  pub frontier : ℕ
  pub reserved : ℕ
  pub buffer_size : ℕ

abbrev pub is_done : State → Bool
is_done completed = true
is_done written = true
is_done _ = false

-- The tests from the frontier chunk on, in the code's order.
unfoldable pub chunk_eligible : Scheduler → ℕ → SinkReadings → Option Chunk → Option ℕ
chunk_eligible s now sink none = none
chunk_eligible s now sink (some fc) =
    if not (is_active fc.state)
      || fc.hedged
      || ltb (length s.recent_chunk_durations) 4
      || ltb (count_state is_done (drop (suc sink.frontier) s.chunks)) 2
      || ltb (now - fc.start_time) (2 * rolling_median s.recent_chunk_durations)
      || at_least s.active_count s.effective_target
      || lt64 sink.buffer_size (add64 sink.reserved fc.length)
    then none
    else some sink.frontier

-- `none` is -1.
unfoldable pub hedge_eligible : Scheduler → ℕ → SinkReadings → Option ℕ
unfolding chunk_eligible
hedge_eligible s now sink =
    if not s.cfg.stream_mode || not s.has_sink || s.hedge_active
    then none
    else chunk_eligible s now sink (get_elem? s.chunks sink.frontier)

abbrev pub same_slot : Option ℕ → ℕ → Bool
same_slot none i = false
same_slot (some j) i = j == i

unfoldable pub slot_in_use : ℕ → List Chunk → Bool
slot_in_use i [] = false
slot_in_use i (c ∷ cs) = (is_active c.state && same_slot c.worker_slot i) || slot_in_use i cs

-- `panics` is an index past the worker table.
pub data SlotSearch : Type 0 where
  found : ℕ → SlotSearch
  no_slot panics : SlotSearch

unfoldable pub check_slot : ℕ → ℕ → Option WorkerStats → SlotSearch → SlotSearch
check_slot now i none later = panics
check_slot now i (some w) later = if is_suppressed now w then later else found i

-- The loop over the slots below the target; the first argument is the number of rounds left.
unfoldable pub find_slot : ℕ → ℕ → Scheduler → ℕ → SlotSearch
unfolding check_slot slot_in_use
find_slot zero i s now = no_slot
find_slot (suc rounds) i s now =
    let later = find_slot rounds (suc i) s now in
    if slot_in_use i s.chunks then later else check_slot now i (get_elem? s.workers i) later

unfoldable pub hedge_chunk : Chunk → Chunk
hedge_chunk c = record c { hedged = true; attempts = suc c.attempts }

unfoldable pub unhedge_chunk : Chunk → Chunk
unhedge_chunk c = record c { hedged = false }

-- The state and, if a duplicate starts, its slot; `none` is a panic.
unfoldable pub hedge_at : Scheduler → ℕ → SlotSearch → Option (Scheduler × Option ℕ)
unfolding hedge_chunk unhedge_chunk
hedge_at s idx (found slot) = some (
  record s {
    chunks = modify s.chunks idx hedge_chunk;
    hedge_active = true;
    hedged_chunk_idx = some idx;
    active_count = increment s.active_count;
  },
  some slot,
)
hedge_at s idx no_slot = some (
  record s {
    chunks = modify s.chunks idx unhedge_chunk;
    hedge_active = false;
    hedged_chunk_idx = none;
  },
  none,
)
hedge_at s idx panics = none

unfoldable pub start_hedge : Scheduler → ℕ → ℕ → Option (Scheduler × Option ℕ)
unfolding hedge_at find_slot
start_hedge s now idx =
    if leb (length s.chunks) idx
    then some (s, none)
    else hedge_at s idx (find_slot s.effective_target 0 s now)

-- Also when another chunk is hedged the count goes down.
unfoldable pub cancel_hedge : Scheduler → ℕ → Scheduler
cancel_hedge s idx =
    let s' =
      (if same_slot s.hedged_chunk_idx idx
        then record s { hedge_active = false; hedged_chunk_idx = none }
        else s) in
    record s' { active_count = decrement s'.active_count }
