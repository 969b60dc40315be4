-- ===== src/Job/Run.antt =====
-- internal/job/runner.go: runWorkers, and the parallel downloads around it, as systems of steps. The
-- workers are numbered from 0; which one moves next, and what its surroundings answer, is open.
pub mod Delivered
pub mod Sinks
pub mod Changes
pub mod Moves
pub mod Safety
pub mod Kind
pub mod Frame
pub mod Attempts
use pget.Base.{
  ℕ, zero, suc, ◌+◌, ◌<◌, ◌≡◌, Bool, true, false, List, [], ◌∷◌, ◌++◌, Option, none, some, ◌==◌,
  if◌then◌else◌, length, take, drop,
}
use pget.Chunk.{Chunk, State, completed}
use pget.Schedule.State.{Scheduler}
use pget.Schedule.Report.{cancel}
use pget.Job.Worker.{
  Env, Fetch, refused, broken, body, Shared, Dest, to_stream, Pc, top, WorkerError, move,
}

pub record Workers : Type 0 where
  pub shared : Shared
  pub pcs : ℕ → Pc

abbrev pub update : (ℕ → Pc) → ℕ → Pc → ℕ → Pc
update pcs i pc j = if i == j then pc else pcs j

-- A reply with a body has the requested bytes of the source: that many, from that offset.
abbrev pub IsReply : List ℕ → ℕ → ℕ → Fetch → Type 0
IsReply source start n refused = Unit {0}
IsReply source start n broken = Unit {0}
IsReply source start n (body payload) =
    (payload ≡ take n (drop start source)) × (length payload ≡ n)

-- The server's replies are those of one unchanged source.
abbrev pub Serves : List ℕ → Env → Type 0
Serves source env = (start n : ℕ) → IsReply source start n (env.fetch start n)

-- One of `n` workers moves, or runWorkers cancels the scheduler, on the first error or with the context.
pub data Step (n : ℕ) (source : List ℕ) (w : Workers) : Workers → Type 0 where
  works :
      (i : ℕ) (env : Env)
      → i < n
      → Serves source env
      → Step n source w (record {
        shared = (move env w.shared (w.pcs i)).0;
        pcs = update w.pcs i (move env w.shared (w.pcs i)).1;
      })
  cancels :
      Step n source w (record w { shared = record w.shared { sched = cancel w.shared.sched } })

pub data Reach (n : ℕ) (source : List ℕ) (w : Workers) : Workers → Type 0 where
  here : Reach n source w w
  next : {u v : Workers} → Reach n source w u → Step n source u v → Reach n source w v

-- The goroutines before their first step; each has its number as its slot.
unfoldable pub launch : Scheduler → Dest → Workers
launch s dest = record {
  shared = record { sched = s; dest = dest; progress_bytes = 0 };
  pcs = λ slot. top slot;
}
