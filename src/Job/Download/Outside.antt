-- ===== src/Job/Download/Outside.antt =====
-- A download into a file and the bytes before and behind its place in it.
use pget.Base.{
  ℕ, zero, suc, ◌+◌, ◌≤◌, ◌<◌, ◌≡◌, ◌⊎◌, ◌∙◌, sym, ap, Bool, List, [], ◌∷◌, some, arith, get_elem?,
}
use pget.Base.Int64.{half}
use pget.Cli.{ExecutionPlan}
use pget.Chunk
use pget.Chunk.{Chunk}
use pget.Chunk.Tiling.{Tiles}
use pget.Schedule.State.{Scheduler}
use pget.Schedule.Steps.{IsContiguous}
use pget.Sink.File.{FileSink}
use pget.Sink.File.Placement.{byte_at}
use pget.Job.Worker.{to_file}
use pget.Job.Run.{Workers, Reach, launch}
use pget.Job.Run.Kind.{Reach-is_file}
use pget.Job.Run.Frame.{byte_in, Reach-byte_in}
use pget.Job.Download.{mark_done, started, prepare_file}
use pget.Job.Download.File.{HoldsMarked, planned-Tiles, started-Inv, Tiles-laid, Tiles-end, file_of}

Tiles-within :
    (split size n off : ℕ) (cs : List Chunk) (i : ℕ) (c : Chunk)
    → Tiles split size n off cs
    → get_elem? cs i ≡ some c
    → c.start + c.length ≤ size
Tiles-within split size n off [] i c t e = cc
Tiles-within split size n off (x ∷ cs) zero c (_, at, _, _, _, t) e =
    ground (arith, Tiles-end split size (suc n) (off + x.length) cs t)
Tiles-within split size n off (x ∷ cs) (suc i) c (_, _, _, _, _, t) e =
    Tiles-within split size (suc n) (off + x.length) cs i c t e

-- At every moment of a download into a file, in whatever order the workers move, whatever fails, and
-- also if it is cancelled or ends without success, the bytes before the base offset and those behind the
-- place of the resource, such as what earlier downloads have put there, are what they were before.
-- The conditions are: a positive size and split size, both together at most 2^63, base and size
-- too, marks that name a front part of the chunks, of which the file holds the bytes, and replies
-- that are those of one unchanged source.
pub download_file-outside :
    (plan : ExecutionPlan) (size : ℕ) (marks : ℕ → Bool) (base : ℕ) (created : Bool)
    (file source : List ℕ) (cs : List Chunk) (s : Scheduler) (sink : FileSink) (w : Workers) (y : ℕ)
    → 0 < size
    → 0 < plan.split_size
    → size + plan.split_size ≤ half
    → base + size ≤ half
    → Chunk.plan plan.split_size size ≡ some cs
    → IsContiguous (mark_done marks cs)
    → HoldsMarked marks cs base file source
    → prepare_file plan size marks base created (some file) ≡ started s sink
    → Reach plan.connections source (launch s (to_file sink)) w
    → (y < base) ⊎ (base + size ≤ y)
    → (last : FileSink) × (w.shared.dest ≡ to_file last) × (byte_at last.file y ≡ byte_at file y)
unfolding launch
download_file-outside plan size marks base created file source cs s sink w y some_bytes pos small
      fits planned front held prepared r away =
    let tiles = planned-Tiles plan size cs some_bytes pos small planned in
    let (v, same) =
      started-Inv plan size cs some_bytes pos small planned marks base created file source s sink
        front held prepared in
    let kept =
      Reach-byte_in cs source base y (Tiles-laid plan.split_size size base cs fits tiles)
        (λ i c at. ground (arith, away, Tiles-within plan.split_size size 0 0 cs i c tiles at)) v
        r in
    let (last, is) = file_of w.shared.dest (Reach-is_file r) in
    (last, is, ap (byte_in y) (sym is) ∙ kept ∙ ap (λ f. byte_at f y) same)
