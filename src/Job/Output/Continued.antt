-- ===== src/Job/Output/Continued.antt =====
-- A continued download to an output that an earlier job of the same run has written.
use pget.Base.{
  ℕ, ◌<◌, ◌≡◌, ◌∙◌, ap, refl, true, List, [], ◌∷◌, ◌++◌, Option, some, arith, length, drop,
}
use mathlib.Core.List.{append-nil}
use pget.Base.Int64.{lt64, half}
use pget.Cli.{ExecutionPlan}
use pget.Cli.Parse.{is_continued}
use pget.Http.Sequential.{Reply, reply}
use pget.Job.Exit.{exit_success}
use pget.Job.Sequential.{Honours, ranged-appends}
use pget.Job.Output.{
  Output, Job, continued_file, continued_to, run_job, run_each, run_single, create,
}
use pget.Job.Output.Concatenated.{in_sequence, run_each-in_sequence, standing}

run_job-continued_file :
    (plan : ExecutionPlan) (size : ℕ) (out : Output) (b : List ℕ) (server : Option ℕ → Reply)
    → is_continued plan ≡ true
    → lt64 0 size ≡ true
    → 0 < length out.file
    → server (some (length out.file)) ≡ reply 206 (drop (length out.file) b) true
    → run_job out (continued_file plan size true server)
      ≡ (exit_success, record out { file = out.file ++ drop (length out.file) b })
unfolding run_job continued_to
run_job-continued_file plan size out b server auto known old answer =
    ap (continued_to out) (ranged-appends plan size b out.file server auto known old answer)

run_each-last :
    (out out' : Output) (job : Job)
    → run_job out job ≡ (exit_success, out')
    → run_each out (job ∷ []) ≡ (exit_success, out')
unfolding run_each
run_each-last out out' job e = rw e refl

-- With -O and --continue, a sequential download of `a`, which has at least one and less than 2^63 bytes,
-- followed by one that continues the output, of a longer `b` of a known size from a server that
-- answers ranges, exits with success, though behind `a` there stands only what of `b` follows its
-- first bytes, as many as `a` has: those are lost.
pub run_single-skips :
    (old a b : List ℕ) (plan : ExecutionPlan) (size : ℕ) (server : Option ℕ → Reply)
    → 0 < length a
    → length a < half
    → is_continued plan ≡ true
    → lt64 0 size ≡ true
    → Honours b server
    → length a < length b
    → run_single true old (in_sequence a ∷ continued_file plan size true server ∷ [])
      ≡ (exit_success, a ++ drop (length a) b)
unfolding run_single create
run_single-skips old a b plan size server some_bytes small auto known honours less =
    let job = continued_file plan size true server in
    let first = run_each-in_sequence [] (a ∷ []) (job ∷ []) (omega (arith, small, whole)) in
    let last = run_each-last _ _ job (
      run_job-continued_file plan size (standing (length a) a) b server auto known some_bytes
        (honours.1 (length a) less)) in
    ap (λ o. (o.0, o.1.file)) (rw (append-nil a) at first ∙ last)
  where
    whole : length (a ++ []) ≡ length a
    whole = ap length (append-nil a)
