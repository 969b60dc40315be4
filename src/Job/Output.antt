-- ===== src/Job/Output.antt =====
-- internal/job/runner.go: Run with one output for all URLs, -O and a file. The file is its bytes; the
-- handle that Run holds has a position of its own, and the base offset counts what the jobs have placed.
pub mod Concatenated
pub mod Continued
pub mod Created
mod Tests
use pget.Base.{
  ℕ, ◌+◌, Bool, true, false, List, [], ◌∷◌, Option, none, some, ◌==◌, if◌then◌else◌, length,
}
use pget.Base.Int64.{add64, lt64}
use pget.Sink.File.{write_at}
use pget.Cli.{ExecutionPlan}
use pget.Http.Sequential.{Reply}
use pget.Job.Sequential.{Target, opened, at_path, nowhere, download_sequential}
use pget.Job.Exit.{exit_success, exit_io_error, exit_network_fail}

pub record Output : Type 0 where
  pub file : List ℕ
  pub position : ℕ
  pub base : ℕ

-- What becomes of a URL: an exit before any transfer; a sequential download of a resource of the probed
-- size, with the body that OpenSequential answers and whether io.Copy reads all of it; a parallel one,
-- which opens the path again and returns a code and the file that it leaves, by the base offset; or a
-- continued one, to which runOneJob passes the path, but neither the handle nor the base offset.
pub data Job : Type 0 where
  settled : ℕ → Job
  sequential : ℕ → Option (List ℕ × Bool) → Job
  parallel : ℕ → (List ℕ → ℕ → ℕ × List ℕ) → Job
  continued_file : ExecutionPlan → ℕ → Bool → (Option ℕ → Reply) → Job

-- io.Copy to the handle.
unfoldable pub write_handle : Output → List ℕ → Output
unfolding write_at
write_handle out body = record out {
  file = write_at out.file out.position body;
  position = out.position + length body;
}

unfoldable pub advance : Output → ℕ → Output
advance out size = record out { base = add64 out.base size }

unfoldable pub copied_to : Output → ℕ → List ℕ → Bool → ℕ × Output
unfolding write_handle advance
copied_to out size body false = (exit_network_fail, write_handle out body)
copied_to out size body true = (
  exit_success,
  (if lt64 0 size then advance (write_handle out body) size else write_handle out body),
)

unfoldable pub placed_in : Output → ℕ → ℕ × List ℕ → ℕ × Output
unfolding advance
placed_in out size (code, file) = (code, advance (record out { file = file }) size)

-- What the file at the path holds after a sequential download to it.
unfoldable pub left_by : Target → List ℕ → List ℕ
left_by (opened file) old = file
left_by (at_path (some file)) old = file
left_by (at_path none) old = old
left_by nowhere old = old

unfoldable pub continued_to : Output → ℕ × Target → ℕ × Output
unfolding left_by
continued_to out (code, target) = (code, record out { file = left_by target out.file })

unfoldable pub run_job : Output → Job → ℕ × Output
unfolding copied_to placed_in continued_to
run_job out (settled code) = (code, out)
run_job out (sequential size none) = (exit_network_fail, out)
run_job out (sequential size (some (body, whole))) = copied_to out size body whole
run_job out (parallel size effect) = placed_in out size (effect out.file out.base)
run_job out (continued_file plan size opens server) =
    continued_to out (download_sequential plan size (at_path (some out.file)) opens server)

-- The loop over the URLs, which the first failure ends.
unfoldable pub run_each : Output → List Job → ℕ × Output
unfolding run_job
run_each out [] = (exit_success, out)
run_each out (job ∷ jobs) =
    let result = run_job out job in
    let rest = run_each result.1 jobs in if result.0 == exit_success then rest else result

-- os.Create empties a file that exists.
unfoldable pub create : List ℕ → Output
create old = record { file = []; position = 0; base = 0 }

-- `creates` is whether os.Create succeeds; the file that it is called on holds `old`.
unfoldable pub run_single : Bool → List ℕ → List Job → ℕ × List ℕ
unfolding create run_each
run_single false old jobs = (exit_io_error, old)
run_single true old jobs = let result = run_each (create old) jobs in (result.0, result.1.file)
