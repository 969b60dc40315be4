-- ===== src/Cli/Setting.antt =====
-- internal/cli/parser.go: setOption. `parse_seconds` stands for parseSeconds, a call of ParseFloat;
-- an option that prints and exits has the outcome `exited`.
use pget.Base.{
  ℕ, true, false, List, [], ◌∷◌, ◌++◌, Option, none, some, if◌then◌else◌, bytes, same_text, split,
  trim_space, parse_int,
}
use pget.Base.Int64.{lt64}
use pget.Cli.{
  ExecutionPlan, output_single, output_stdout, continue_auto, timestamp_check, log_file, log_append,
  background_child,
}
use pget.Cli.Options.{
  CliOption, opt_version, opt_help, opt_quiet, opt_verbose, opt_no_verbose, opt_server_response,
  opt_output_file, opt_append_output, opt_output_document, opt_continue, opt_no_clobber,
  opt_timestamping, opt_background, opt_input_file, opt_tries, opt_timeout, opt_connect_timeout,
  opt_read_timeout, opt_retry_connrefused, opt_retry_on_http_error, opt_content_disposition,
  opt_no_use_server_timestamps, opt_spider, opt_progress, opt_header, opt_user_agent, opt_referer,
  opt_no_check_certificate, opt_ftps_implicit, opt_connections, opt_split_size, opt_buffer_size,
  opt_no_parallel,
}
use pget.Cli.Size.{parse_size}

pub data CliError : Type 0 where
  unrecognized_option requires_argument invalid_value invalid_header reading_input :
      List ℕ → CliError
  invalid_option short_requires_argument : ℕ → CliError
  buffer_too_small : ℕ → ℕ → CliError
  background_with_stdout continue_with_stdout : CliError

pub data Outcome {ℓ} (A : Type ℓ) : Type ℓ where
  ok : A → Outcome A
  fails : CliError → Outcome A
  exited : Outcome A

unfoldable pub and_then {ℓ κ} : {A : Type ℓ} {B : Type κ} → Outcome A → (A → Outcome B) → Outcome B
and_then (ok a) f = f a
and_then (fails e) f = fails e
and_then exited f = exited

pub record Parser : Type 0 where
  pub plan : ExecutionPlan
  pub headers : List (List ℕ)

-- A value that the option's reader accepts is put into the plan.
unfoldable pub put : Parser → List ℕ → Option ℕ → (ℕ → ExecutionPlan) → Outcome Parser
put p value none set = fails (invalid_value value)
put p value (some n) set = ok (record p { plan = set n })

-- `strconv.Atoi` and the test `n < 1`.
unfoldable pub positive : List ℕ → Option ℕ
unfolding parse_int
positive value = elim (parse_int value) [
  | none ↦ none
  | some n ↦ elim (lt64 n 1) [ true ↦ none | false ↦ some n ]
]

unfoldable pub read_codes : List (List ℕ) → Option (List ℕ)
unfolding parse_int trim_space
read_codes [] = some []
read_codes (c ∷ codes) =
    let rest = read_codes codes in
    elim (parse_int (trim_space c)) [
      | none ↦ none
      | some code ↦ elim rest [ none ↦ none | some more ↦ some (code ∷ more) ]
    ]

unfoldable pub put_codes : Parser → List ℕ → Option (List ℕ) → Outcome Parser
put_codes p value none = fails (invalid_value value)
put_codes p value (some codes) = ok (record p {
  plan = record p.plan { retry_on_http_error = p.plan.retry_on_http_error ++ codes };
})

unfoldable pub set_output : ExecutionPlan → List ℕ → ExecutionPlan
unfolding same_text bytes
set_output plan value = record plan {
  output_path = value;
  output_mode = (if same_text value (bytes "-") then output_stdout else output_single);
}

unfoldable pub set_option : (List ℕ → Option ℕ) → Parser → CliOption → List ℕ → Outcome Parser
unfolding put positive put_codes read_codes set_output split parse_size
set_option parse_seconds p opt_version value = exited
set_option parse_seconds p opt_help value = exited
set_option parse_seconds p opt_quiet value = ok (record p { plan = record p.plan { quiet = true } })
set_option parse_seconds p opt_verbose value =
    ok (record p { plan = record p.plan { verbose = true } })
set_option parse_seconds p opt_no_verbose value =
    ok (record p { plan = record p.plan { no_verbose = true } })
set_option parse_seconds p opt_server_response value =
    ok (record p { plan = record p.plan { server_resp = true } })
set_option parse_seconds p opt_output_file value =
    ok (record p { plan = record p.plan { log_mode = log_file; log_path = value } })
set_option parse_seconds p opt_append_output value =
    ok (record p { plan = record p.plan { log_mode = log_append; log_path = value } })
set_option parse_seconds p opt_output_document value =
    ok (record p { plan = set_output p.plan value })
set_option parse_seconds p opt_continue value =
    ok (record p { plan = record p.plan { continue_mode = continue_auto } })
set_option parse_seconds p opt_no_clobber value =
    ok (record p { plan = record p.plan { no_clobber = true } })
set_option parse_seconds p opt_timestamping value =
    ok (record p { plan = record p.plan { timestamp_mode = timestamp_check } })
set_option parse_seconds p opt_background value =
    ok (record p { plan = record p.plan { background = background_child } })
set_option parse_seconds p opt_input_file value =
    ok (record p { plan = record p.plan { input_file = value } })
set_option parse_seconds p opt_tries value =
    put p value (positive value) (λ n. record p.plan { max_tries = n })
set_option parse_seconds p opt_timeout value =
    put p value (parse_seconds value) (λ d. record p.plan { timeout = d })
set_option parse_seconds p opt_connect_timeout value =
    put p value (parse_seconds value) (λ d. record p.plan { connect_timeout = d })
set_option parse_seconds p opt_read_timeout value =
    put p value (parse_seconds value) (λ d. record p.plan { read_timeout = d })
set_option parse_seconds p opt_retry_connrefused value =
    ok (record p { plan = record p.plan { retry_conn_refused = true } })
set_option parse_seconds p opt_retry_on_http_error value =
    put_codes p value (read_codes (split b',' value))
set_option parse_seconds p opt_content_disposition value =
    ok (record p { plan = record p.plan { content_disposition = true } })
set_option parse_seconds p opt_no_use_server_timestamps value =
    ok (record p { plan = record p.plan { no_use_server_timestamps = true } })
set_option parse_seconds p opt_spider value =
    ok (record p { plan = record p.plan { spider = true } })
set_option parse_seconds p opt_progress value =
    ok (record p { plan = record p.plan { progress_type = value } })
set_option parse_seconds p opt_header value = ok (record p { headers = p.headers ++ (value ∷ []) })
set_option parse_seconds p opt_user_agent value =
    ok (record p { plan = record p.plan { user_agent = value } })
set_option parse_seconds p opt_referer value =
    ok (record p { plan = record p.plan { referer = value } })
set_option parse_seconds p opt_no_check_certificate value =
    ok (record p { plan = record p.plan { insecure_skip_verify = true } })
set_option parse_seconds p opt_ftps_implicit value =
    ok (record p { plan = record p.plan { ftps_implicit = true } })
set_option parse_seconds p opt_connections value =
    put p value (positive value) (λ n. record p.plan { connections = n })
set_option parse_seconds p opt_split_size value =
    put p value (parse_size value) (λ n. record p.plan { split_size = n })
set_option parse_seconds p opt_buffer_size value =
    put p value (parse_size value) (λ n. record p.plan { buffer_size = n })
set_option parse_seconds p opt_no_parallel value =
    ok (record p { plan = record p.plan { no_parallel = true } })
