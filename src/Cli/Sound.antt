-- ===== src/Cli/Sound.antt =====
-- Every option keeps the settings within their bounds.
use pget.Base.{
  ℕ, ◌≡◌, refl, inl, inr, false, List, Option, none, some, arith, bytes, same_text, Bool-cases,
  Option-cases, parse_int,
}
use pget.Base.Int64.{lt64}
use pget.Cli.{ExecutionPlan}
use pget.Cli.Options.{
  CliOption, opt_version, opt_help, opt_quiet, opt_verbose, opt_no_verbose, opt_server_response,
  opt_output_file, opt_append_output, opt_output_document, opt_continue, opt_no_clobber,
  opt_timestamping, opt_background, opt_input_file, opt_tries, opt_timeout, opt_connect_timeout,
  opt_read_timeout, opt_retry_connrefused, opt_retry_on_http_error, opt_content_disposition,
  opt_no_use_server_timestamps, opt_spider, opt_progress, opt_header, opt_user_agent, opt_referer,
  opt_no_check_certificate, opt_ftps_implicit, opt_connections, opt_split_size, opt_buffer_size,
  opt_no_parallel,
}
use pget.Cli.Setting.{
  Outcome, ok, fails, exited, and_then, Parser, put, positive, put_codes, set_output, set_option,
}
use pget.Cli.Parse.{is_stdout}

-- A predicate of the answer, where there is one.
abbrev pub Ensures {ℓ} : {A : Type ℓ} → (A → Type 0) → Outcome A → Type 0
Ensures P (ok a) = P a
Ensures P (fails e) = Unit
Ensures P exited = Unit

pub and_then-Ensures {ℓ κ} :
    {A : Type ℓ} {B : Type κ} {P : A → Type 0} (Q : B → Type 0) (o : Outcome A) (f : A → Outcome B)
    → Ensures P o
    → ((a : A) → P a → Ensures Q (f a))
    → Ensures Q (and_then o f)
unfolding and_then
and_then-Ensures Q (ok a) f h k = k a h
and_then-Ensures Q (fails e) f h k = tt
and_then-Ensures Q exited f h k = tt

-- At least one connection and one try, and the output goes to stdout only where it is named `-`.
abbrev pub IsSound : ExecutionPlan → Type 0
IsSound plan =
    (lt64 plan.connections 1 ≡ false)
    × (lt64 plan.max_tries 1 ≡ false)
    × (is_stdout plan ≡ same_text plan.output_path (bytes "-"))

put-Ensures :
    (p : Parser) (value : List ℕ) (o : Option ℕ) (set : ℕ → ExecutionPlan)
    → ((n : ℕ) → o ≡ some n → IsSound (set n))
    → Ensures (λ q. IsSound q.plan) (put p value o set)
unfolding put
put-Ensures p value none set h = tt
put-Ensures p value (some n) set h = h n refl

positive-some : (value : List ℕ) (n : ℕ) → positive value ≡ some n → lt64 n 1 ≡ false
unfolding positive
positive-some value n e = elim (Option-cases (parse_int value)) [
  | inl bad ↦ ground (arith, e, bad)
  | inr (m, good) ↦ elim (Bool-cases (lt64 m 1)) [
    | inl low ↦ ground (arith, e, good, low)
    | inr enough ↦ ground (arith, e, good, enough)
  ]
]

put_codes-Ensures :
    (p : Parser) (value : List ℕ) (codes : Option (List ℕ))
    → IsSound p.plan
    → Ensures (λ q. IsSound q.plan) (put_codes p value codes)
unfolding put_codes is_stdout
put_codes-Ensures p value none h = tt
put_codes-Ensures p value (some codes) h = h

set_output-IsSound :
    (plan : ExecutionPlan) (value : List ℕ) → IsSound plan → IsSound (set_output plan value)
unfolding set_output is_stdout
set_output-IsSound plan value (a, b, c) = elim (Bool-cases (same_text value (bytes "-"))) [
  | inl e ↦ rw e (a, b, refl)
  | inr e ↦ rw e (a, b, refl)
]

pub set_option-Ensures :
    (parse_seconds : List ℕ → Option ℕ) (p : Parser) (opt : CliOption) (value : List ℕ)
    → IsSound p.plan
    → Ensures (λ q. IsSound q.plan) (set_option parse_seconds p opt value)
unfolding set_option is_stdout
set_option-Ensures parse_seconds p opt_version value h = tt
set_option-Ensures parse_seconds p opt_help value h = tt
set_option-Ensures parse_seconds p opt_quiet value h = h
set_option-Ensures parse_seconds p opt_verbose value h = h
set_option-Ensures parse_seconds p opt_no_verbose value h = h
set_option-Ensures parse_seconds p opt_server_response value h = h
set_option-Ensures parse_seconds p opt_output_file value h = h
set_option-Ensures parse_seconds p opt_append_output value h = h
set_option-Ensures parse_seconds p opt_output_document value h = set_output-IsSound p.plan value h
set_option-Ensures parse_seconds p opt_continue value h = h
set_option-Ensures parse_seconds p opt_no_clobber value h = h
set_option-Ensures parse_seconds p opt_timestamping value h = h
set_option-Ensures parse_seconds p opt_background value h = h
set_option-Ensures parse_seconds p opt_input_file value h = h
set_option-Ensures parse_seconds p opt_tries value h =
    put-Ensures p value _ _ (λ n e. (h.0, positive-some value n e, h.2))
set_option-Ensures parse_seconds p opt_timeout value h = put-Ensures p value _ _ (λ n e. h)
set_option-Ensures parse_seconds p opt_connect_timeout value h = put-Ensures p value _ _ (λ n e. h)
set_option-Ensures parse_seconds p opt_read_timeout value h = put-Ensures p value _ _ (λ n e. h)
set_option-Ensures parse_seconds p opt_retry_connrefused value h = h
set_option-Ensures parse_seconds p opt_retry_on_http_error value h = put_codes-Ensures p value _ h
set_option-Ensures parse_seconds p opt_content_disposition value h = h
set_option-Ensures parse_seconds p opt_no_use_server_timestamps value h = h
set_option-Ensures parse_seconds p opt_spider value h = h
set_option-Ensures parse_seconds p opt_progress value h = h
set_option-Ensures parse_seconds p opt_header value h = h
set_option-Ensures parse_seconds p opt_user_agent value h = h
set_option-Ensures parse_seconds p opt_referer value h = h
set_option-Ensures parse_seconds p opt_no_check_certificate value h = h
set_option-Ensures parse_seconds p opt_ftps_implicit value h = h
set_option-Ensures parse_seconds p opt_connections value h =
    put-Ensures p value _ _ (λ n e. (positive-some value n e, h.1, h.2))
set_option-Ensures parse_seconds p opt_split_size value h = put-Ensures p value _ _ (λ n e. h)
set_option-Ensures parse_seconds p opt_buffer_size value h = put-Ensures p value _ _ (λ n e. h)
set_option-Ensures parse_seconds p opt_no_parallel value h = h
