-- ===== src/Sink/File.antt =====
-- internal/sink/file.go: the file sink. The file is what `WriteAt` leaves in it, its bytes; the outcome
-- of the write and the sidecar's MarkComplete are arguments. `none` is success.
pub mod Placement
pub mod AnyOrder
pub mod Finalize
use pget.Base.{
  ℕ, zero, suc, ◌+◌, ◌-◌, ◌<◌, Bool, true, false, List, [], ◌∷◌, ◌++◌, Option, none, some, ◌==◌,
  ltb, if◌then◌else◌, length, replicate, take, drop,
}
use pget.Base.Int64.{add64}
use pget.Chunk.{Chunk}

-- os.File.WriteAt: the bytes from `off` on are replaced, behind a gap of zeros where the file is shorter.
unfoldable pub write_at : List ℕ → ℕ → List ℕ → List ℕ
write_at file zero [] = file
write_at [] zero (d ∷ payload) = d ∷ write_at [] zero payload
write_at (b ∷ file) zero (d ∷ payload) = d ∷ write_at file zero payload
write_at file (suc off) [] = file
write_at [] (suc off) (d ∷ payload) = 0 ∷ write_at [] off (d ∷ payload)
write_at (b ∷ file) (suc off) (d ∷ payload) = b ∷ write_at file off (d ∷ payload)

pub record FileSink : Type 0 where
  pub file : List ℕ
  pub base_off : ℕ
  pub has_sidecar : Bool
  pub marked : List ℕ

pub data FileError : Type 0 where
  write_error short_write mark_error : ℕ → FileError

-- MarkComplete of the sidecar, if there is one; `mark_fails` is its answer.
unfoldable pub mark_chunk : FileSink → ℕ → Bool → Bool → FileSink × Option FileError
mark_chunk s i false mark_fails = (s, none)
mark_chunk s i true true = (s, some (mark_error i))
mark_chunk s i true false = (record s { marked = i ∷ s.marked }, none)

-- A write without an error has written all the data; `some n` is an error behind the first `n` bytes.
unfoldable pub write_chunk :
    FileSink → Chunk → List ℕ → Option ℕ → Bool → FileSink × Option FileError
unfolding write_at mark_chunk
write_chunk s c payload (some n) mark_fails = (
  record s { file = write_at s.file (add64 s.base_off c.start) (take n payload) },
  some (write_error c.index),
)
write_chunk s c payload none mark_fails =
    let s' = record s { file = write_at s.file (add64 s.base_off c.start) payload } in
    if length payload == c.length
    then mark_chunk s' c.index s'.has_sidecar mark_fails
    else (s', some (short_write c.index))
