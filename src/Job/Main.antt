-- ===== src/Job/Main.antt =====
-- cmd/pget/main.go, internal/job/background.go, and Run of internal/job/runner.go up to its loop. What the
-- operating system answers, and the codes of the jobs, are in `World`; a signal cancels the context.
use pget.Base.{
  ℕ, suc, ◌↔◌, All, ◌≡◌, ◌≢◌, refl, ap, inl, inr, Bool, true, false, not, ◌&&◌, ◌||◌, List, [], ◌∷◌,
  Option, arith, if◌then◌else◌, bytes, same_text, Bool-cases,
}
use pget.Cli.{ExecutionPlan, output_file}
use pget.Cli.Setting.{Outcome, ok, fails, exited}
use pget.Cli.Parse.{parse, is_stdout, is_background}
use pget.Job.Exit.{exit_success, exit_parse_error, exit_io_error, run, run-success}

pub record World : Type 0 where
  pub is_child : Bool
  pub executable_found : Bool
  pub child_starts : Bool
  pub creates : Bool
  -- what a job returns, by the position of its URL and the URL
  pub code : ℕ → List ℕ → ℕ

-- `detached` is the success of a parent whose child has these arguments.
pub data Ended : Type 0 where
  exits : ℕ → Ended
  detached : List (List ℕ) → Ended

abbrev pub exit_generic_error : ℕ
exit_generic_error = 1

unfoldable pub is_background_flag : List ℕ → Bool
unfolding same_text bytes
is_background_flag arg = same_text arg (bytes "-b") || same_text arg (bytes "--background")

unfoldable pub child_args : List (List ℕ) → List (List ℕ)
unfolding is_background_flag
child_args [] = []
child_args (arg ∷ args) =
    let rest = child_args args in if is_background_flag arg then rest else arg ∷ rest

unfoldable pub detach_to_background : World → List (List ℕ) → Ended
unfolding child_args
detach_to_background w args =
    if w.executable_found && w.child_starts
    then detached (child_args args)
    else exits exit_generic_error

-- Whether all URLs share one output.
unfoldable pub is_concatenated : ExecutionPlan → Bool
is_concatenated plan = elim plan.output_mode [ output_file ↦ false | _ ↦ true ]

unfoldable pub job_codes : World → ℕ → List (List ℕ) → List ℕ
job_codes w n [] = []
job_codes w n (url ∷ urls) = w.code n url ∷ job_codes w (suc n) urls

unfoldable pub run_urls : World → ExecutionPlan → List (List ℕ) → Ended
unfolding run job_codes is_concatenated is_stdout
run_urls w plan urls =
    if is_concatenated plan && not (is_stdout plan) && not w.creates
    then exits exit_io_error
    else exits (run (is_concatenated plan) (job_codes w 0 urls))

unfoldable pub run_plan : World → List (List ℕ) → ExecutionPlan → List (List ℕ) → Ended
unfolding run_urls detach_to_background is_background is_stdout
run_plan w args plan [] = exits exit_parse_error
run_plan w args plan (url ∷ urls) =
    if is_background plan && not w.is_child
    then (if is_stdout plan then exits exit_parse_error else detach_to_background w args)
    else run_urls w plan (url ∷ urls)

unfoldable pub start : World → List (List ℕ) → Outcome ExecutionPlan → Ended
unfolding run_plan
start w args (fails e) = exits exit_parse_error
start w args exited = exits exit_success
start w args (ok plan) =
    if is_background plan && not w.is_child
    then detach_to_background w args
    else run_plan w args plan plan.urls

module _ (parse_seconds : List ℕ → Option ℕ) (read_file : List ℕ → Option (List ℕ)) where
  unfoldable pub main : World → List (List ℕ) → Ended
  unfolding parse start
  main w args = start w args (parse parse_seconds read_file args)

-- Every URL has a job that returns success.
abbrev pub AllSucceed : World → ℕ → List (List ℕ) → Type 0
AllSucceed w n [] = Unit
AllSucceed w n (url ∷ urls) = (w.code n url ≡ exit_success) × AllSucceed w (suc n) urls

AllSucceed-codes :
    (w : World) (n : ℕ) (urls : List (List ℕ))
    → AllSucceed w n urls
    → All (λ code. code ≡ exit_success) (job_codes w n urls)
unfolding job_codes
AllSucceed-codes w n [] h = tt
AllSucceed-codes w n (url ∷ urls) (e, h) = (e, AllSucceed-codes w (suc n) urls h)

codes-AllSucceed :
    (w : World) (n : ℕ) (urls : List (List ℕ))
    → All (λ code. code ≡ exit_success) (job_codes w n urls)
    → AllSucceed w n urls
unfolding job_codes
codes-AllSucceed w n [] h = tt
codes-AllSucceed w n (url ∷ urls) (e, h) = (e, codes-AllSucceed w (suc n) urls h)

-- The file of -O could be made, where there is one.
abbrev pub IsOpened : World → ExecutionPlan → Type 0
IsOpened w plan = (is_concatenated plan && not (is_stdout plan) && not w.creates) ≡ false

exits-inj : (a b : ℕ) → exits a ≡ exits b → a ≡ b
exits-inj a b e = cc

run_urls-success :
    (w : World) (plan : ExecutionPlan) (url : List ℕ) (urls : List (List ℕ))
    → (run_urls w plan (url ∷ urls) ≡ exits exit_success)
      ↔ (IsOpened w plan × AllSucceed w 0 (url ∷ urls))
unfolding run_urls
run_urls-success w plan url urls =
    elim (Bool-cases (is_concatenated plan && not (is_stdout plan) && not w.creates)) [
      | inl e ↦ rw e (
        λ h. absurd (let q = exits-inj _ _ h in omega (arith, q)),
        λ (opened, _). absurd (let q : true ≡ false = opened in cc),
      )
      | inr e ↦
          let (only, if_all) =
            run-success (is_concatenated plan) (w.code 0 url) (job_codes w 1 urls) in
          rw e (
            λ h. (refl, codes-AllSucceed w 0 (url ∷ urls) (only (exits-inj _ _ h))),
            λ (_, all). ap exits (if_all (AllSucceed-codes w 0 (url ∷ urls) all)),
          )
    ]

run_plan-success :
    (w : World) (args : List (List ℕ)) (plan : ExecutionPlan) (urls : List (List ℕ))
    → (is_background plan && not w.is_child) ≡ false
    → (run_plan w args plan urls ≡ exits exit_success)
      ↔ ((urls ≢ []) × IsOpened w plan × AllSucceed w 0 urls)
unfolding run_plan
run_plan-success w args plan [] here = (
  λ h. absurd (let q = exits-inj _ _ h in omega (arith, q)),
  λ (some_url, _, _). absurd (some_url refl),
)
run_plan-success w args plan (url ∷ urls) here =
    let (only, if_all) = run_urls-success w plan url urls in
    rw here (
      λ h. let (opened, all) = only h in ((λ none_left. cc), opened, all),
      λ (_, opened, all). if_all (opened, all),
    )

-- A process that does the downloads itself, being in the foreground or the child of one that was, exits
-- with success exactly if there is a URL, the file of -O could be created where there is one, and the
-- job of each URL succeeds.
pub main-success :
    (parse_seconds : List ℕ → Option ℕ) (read_file : List ℕ → Option (List ℕ)) (w : World)
    (args : List (List ℕ)) (plan : ExecutionPlan)
    → parse parse_seconds read_file args ≡ ok plan
    → (is_background plan && not w.is_child) ≡ false
    → (main parse_seconds read_file w args ≡ exits exit_success)
      ↔ ((plan.urls ≢ []) × IsOpened w plan × AllSucceed w 0 plan.urls)
unfolding main
main-success parse_seconds read_file w args plan parsed here =
    rw (parsed, here) (run_plan-success w args plan plan.urls here)
