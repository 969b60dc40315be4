-- ===== src/Job/Exit.antt =====
-- internal/job/runner.go: the exit code of a transfer, of the workers, and of a whole run.
use pget.Base.{
  ℕ, zero, suc, ◌≤◌, ◌<◌, ◌≡◌, ◌↔◌, refl, inl, inr, Bool, true, false, ◌||◌, ◌&&◌, not, List, [],
  ◌∷◌, Option, none, some, arith, ◌==◌, ltb, if◌then◌else◌, bytes, cut_text, All, Option-cases,
}

abbrev pub exit_success : ℕ
exit_success = 0

abbrev pub exit_parse_error : ℕ
exit_parse_error = 2

abbrev pub exit_io_error : ℕ
exit_io_error = 3

abbrev pub exit_network_fail : ℕ
exit_network_fail = 4

abbrev pub exit_tls_error : ℕ
exit_tls_error = 5

abbrev pub exit_auth_error : ℕ
exit_auth_error = 6

abbrev pub exit_server_error : ℕ
exit_server_error = 8

unfoldable pub contains : List ℕ → List ℕ → Bool
unfolding cut_text
contains text pattern = elim (cut_text pattern text) [ none ↦ false | some parts ↦ true ]

-- The exit code of the first worker's error, by the text of its message.
unfoldable pub error_code : List ℕ → ℕ
unfolding contains bytes
error_code message =
    if contains message (bytes "TLS") || contains message (bytes "certificate")
    then exit_tls_error
    else if contains message (bytes "401") || contains message (bytes "403")
    then exit_auth_error
    else if contains message (bytes "500")
        || contains message (bytes "502")
        || contains message (bytes "503")
    then exit_server_error
    else exit_network_fail

-- The workers' outcomes, in the order of their end, `none` for no error; the first error cancels.
unfoldable pub first_error : List (Option (List ℕ)) → Option (List ℕ)
first_error [] = none
first_error (none ∷ rest) = first_error rest
first_error (some e ∷ rest) = some e

-- What runWorkers returns behind its loop; `completed` and `total` are `sched.Progress()`.
unfoldable pub workers_code : List (Option (List ℕ)) → ℕ → ℕ → ℕ
unfolding first_error error_code
workers_code outcomes completed total = elim (first_error outcomes) [
  | some message ↦ error_code message
  | none ↦ if ltb completed total then exit_network_fail else exit_success
]

-- The loop of Run over the exit codes that its jobs would return, one for each URL; `concatenated` is
-- the mode with one output for all.
unfoldable pub run_jobs : Bool → ℕ → List ℕ → ℕ
run_jobs concatenated worst [] = worst
run_jobs concatenated worst (code ∷ codes) =
    let rest = run_jobs concatenated (if ltb worst code then code else worst) codes in
    if not (code == exit_success) && concatenated then code else rest

unfoldable pub run : Bool → List ℕ → ℕ
unfolding run_jobs
run concatenated [] = exit_parse_error
run concatenated (code ∷ codes) = run_jobs concatenated exit_success (code ∷ codes)

worst_le : (worst : ℕ) (codes : List ℕ) → worst ≤ run_jobs false worst codes
unfolding run_jobs
worst_le worst [] = omega arith
worst_le worst (code ∷ codes) =
    ground (arith, worst_le (if ltb worst code then code else worst) codes)

run_jobs-succeeds :
    (concatenated : Bool) (codes : List ℕ)
    → run_jobs concatenated exit_success codes ≡ exit_success
    → All (λ code. code ≡ exit_success) codes
unfolding run_jobs
run_jobs-succeeds concatenated [] e = tt
run_jobs-succeeds true (zero ∷ codes) e = (refl, run_jobs-succeeds true codes e)
run_jobs-succeeds true (suc code ∷ codes) e = absurd (ground (arith, e))
run_jobs-succeeds false (zero ∷ codes) e = (refl, run_jobs-succeeds false codes e)
run_jobs-succeeds false (suc code ∷ codes) e = absurd (ground (arith, e, worst_le (suc code) codes))

run_jobs-All :
    (concatenated : Bool) (codes : List ℕ)
    → All (λ code. code ≡ exit_success) codes
    → run_jobs concatenated exit_success codes ≡ exit_success
unfolding run_jobs
run_jobs-All concatenated [] h = refl
run_jobs-All concatenated (code ∷ codes) (e, h) =
    ground (arith, e, run_jobs-All concatenated codes h)

-- A run over at least one URL exits with success exactly if every job does, in both output modes.
pub run-success :
    (concatenated : Bool) (code : ℕ) (codes : List ℕ)
    → (run concatenated (code ∷ codes) ≡ exit_success) ↔ All (λ c. c ≡ exit_success) (code ∷ codes)
unfolding run
run-success concatenated code codes =
    (run_jobs-succeeds concatenated (code ∷ codes), run_jobs-All concatenated (code ∷ codes))

first_error-All :
    (outcomes : List (Option (List ℕ))) → first_error outcomes ≡ none → All (λ o. o ≡ none) outcomes
unfolding first_error
first_error-All [] e = tt
first_error-All (none ∷ rest) e = (refl, first_error-All rest e)
first_error-All (some message ∷ rest) e = cc

All-first_error :
    (outcomes : List (Option (List ℕ))) → All (λ o. o ≡ none) outcomes → first_error outcomes ≡ none
unfolding first_error
All-first_error [] h = refl
All-first_error (none ∷ rest) (e, h) = All-first_error rest h
All-first_error (some message ∷ rest) (e, h) = cc

error_code-pos : (message : List ℕ) → 0 < error_code message
unfolding error_code
error_code-pos message = ground arith

workers_code-succeeds :
    (outcomes : List (Option (List ℕ))) (completed total : ℕ)
    → workers_code outcomes completed total ≡ exit_success
    → (first_error outcomes ≡ none) × (total ≤ completed)
unfolding workers_code
workers_code-succeeds outcomes completed total e = elim (Option-cases (first_error outcomes)) [
  | inl clean ↦ (clean, ground (arith, clean, e))
  | inr (message, failed) ↦ absurd (ground (arith, failed, e, error_code-pos message))
]

-- The exit code of the workers of one download is success exactly if none of them returned an error and
-- the counter of completed chunks is at least the number of chunks: no worker's error is lost in it.
pub workers_code-success :
    (outcomes : List (Option (List ℕ))) (completed total : ℕ)
    → (workers_code outcomes completed total ≡ exit_success)
      ↔ (All (λ o. o ≡ none) outcomes × (total ≤ completed))
unfolding workers_code
workers_code-success outcomes completed total = (
  λ e.
      let (clean, enough) = workers_code-succeeds outcomes completed total e in
      (first_error-All outcomes clean, enough),
  λ (h, enough). ground (arith, All-first_error outcomes h, enough),
)
