-- ===== src/Chunk.antt =====
-- internal/chunk/chunk.go: the chunk type and the planner. Times are nanoseconds; a slot -1 is `none`.
pub mod Tiling
mod Tests
use pget.Base.{
  ℕ, zero, suc, ◌+◌, Bool, true, false, List, [], ◌∷◌, Option, none, some, ◌==◌, if◌then◌else◌,
}
use pget.Base.Int64.{add64, sub64, mul64, lt64, le64, div64, is_negative}

pub data State : Type 0 where
  pending active completed written retry_wait failed : State

pub record Chunk : Type 0 where
  pub index : ℕ
  pub start : ℕ
  pub length : ℕ
  pub state : State
  pub attempts : ℕ
  pub worker_slot : Option ℕ
  pub start_time : ℕ
  pub retry_after : ℕ
  pub bytes_recv : ℕ
  pub last_progress : ℕ
  pub hedged : Bool

-- One round of the loop of `Plan`.
unfoldable pub chunk_at : ℕ → ℕ → ℕ → Chunk
chunk_at split_size object_size i =
    let start = mul64 i split_size in
    record {
      index = i;
      start = start;
      length =
          if lt64 object_size (add64 start split_size) then sub64 object_size start else split_size;
      state = pending;
      attempts = 0;
      worker_slot = none;
      start_time = 0;
      retry_after = 0;
      bytes_recv = 0;
      last_progress = 0;
      hedged = false;
    }

-- The last argument but one is the number of rounds left.
unfoldable pub chunks_from : ℕ → ℕ → ℕ → ℕ → List Chunk
chunks_from split_size object_size zero i = []
chunks_from split_size object_size (suc rounds) i =
    chunk_at split_size object_size i ∷ chunks_from split_size object_size rounds (suc i)

-- `(objectSize + p.SplitSize - 1) / p.SplitSize`; `none` is the panic of a division by zero.
unfoldable pub quotient_up : ℕ → ℕ → Option ℕ
quotient_up split_size object_size =
    if split_size == 0
    then none
    else some (div64 (sub64 (add64 object_size split_size) 1) split_size)

-- `make` panics at a negative length.
unfoldable pub make_chunks : ℕ → ℕ → Option ℕ → Option (List Chunk)
unfolding chunks_from
make_chunks split_size object_size none = none
make_chunks split_size object_size (some n) =
    if is_negative n then none else some (chunks_from split_size object_size n 0)

-- `none` is a panic.
unfoldable pub plan : ℕ → ℕ → Option (List Chunk)
unfolding quotient_up make_chunks
plan split_size object_size =
    if le64 object_size 0
    then some []
    else make_chunks split_size object_size (quotient_up split_size object_size)

unfoldable pub chunk_count : ℕ → ℕ → Option ℕ
unfolding quotient_up
chunk_count split_size object_size =
    if le64 object_size 0 then some 0 else quotient_up split_size object_size
