-- ===== src/Cli/Spelling.antt =====
-- The two ways to write the value of a long option, and arguments that are no options.
use pget.Base.{
  ℕ, ◌≡◌, refl, ap, sym, ◌∙◌, inl, inr, Bool, true, false, not, List, [], ◌∷◌, ◌++◌, Option, none,
  some, arith, bytes, same_text, strip_prefix, Bool-cases, Option-cases, cut, ◌==◌, All,
}
use pget.Cli.{default_plan}
use pget.Cli.Options.{
  CliOption, long, opt_by_name, find_long, options, takes_arg, opt_version, opt_help, opt_quiet,
  opt_verbose, opt_no_verbose, opt_server_response, opt_output_file, opt_append_output,
  opt_output_document, opt_continue, opt_no_clobber, opt_timestamping, opt_background,
  opt_input_file, opt_tries, opt_timeout, opt_connect_timeout, opt_read_timeout,
  opt_retry_connrefused, opt_retry_on_http_error, opt_content_disposition,
  opt_no_use_server_timestamps, opt_spider, opt_progress, opt_header, opt_user_agent, opt_referer,
  opt_no_check_certificate, opt_ftps_implicit, opt_connections, opt_split_size, opt_buffer_size,
  opt_no_parallel,
}
use pget.Cli.Setting.{Outcome, ok, fails, exited, and_then, Parser, set_option}
use pget.Cli.Parser.{
  long_option, parse_long_option, classify, keep, head?, parse_options, handle, positional,
  long_form,
}
use pget.Cli.Parse.{
  header_map, validate, add_file_urls, collect_urls, positional_urls, initial, parse,
}

-- The table finds every option by its name, which is not empty and has no `=` in it.
long-table :
    (opt : CliOption)
    → (opt_by_name (long opt) ≡ some opt)
      × (cut b'=' (long opt) ≡ none)
      × ((c : ℕ) × (s : List ℕ) × (long opt ≡ c ∷ s))
unfolding opt_by_name find_long long bytes same_text options cut
long-table opt_version = (refl, refl, (_, _, refl))
long-table opt_help = (refl, refl, (_, _, refl))
long-table opt_quiet = (refl, refl, (_, _, refl))
long-table opt_verbose = (refl, refl, (_, _, refl))
long-table opt_no_verbose = (refl, refl, (_, _, refl))
long-table opt_server_response = (refl, refl, (_, _, refl))
long-table opt_output_file = (refl, refl, (_, _, refl))
long-table opt_append_output = (refl, refl, (_, _, refl))
long-table opt_output_document = (refl, refl, (_, _, refl))
long-table opt_continue = (refl, refl, (_, _, refl))
long-table opt_no_clobber = (refl, refl, (_, _, refl))
long-table opt_timestamping = (refl, refl, (_, _, refl))
long-table opt_background = (refl, refl, (_, _, refl))
long-table opt_input_file = (refl, refl, (_, _, refl))
long-table opt_tries = (refl, refl, (_, _, refl))
long-table opt_timeout = (refl, refl, (_, _, refl))
long-table opt_connect_timeout = (refl, refl, (_, _, refl))
long-table opt_read_timeout = (refl, refl, (_, _, refl))
long-table opt_retry_connrefused = (refl, refl, (_, _, refl))
long-table opt_retry_on_http_error = (refl, refl, (_, _, refl))
long-table opt_content_disposition = (refl, refl, (_, _, refl))
long-table opt_no_use_server_timestamps = (refl, refl, (_, _, refl))
long-table opt_spider = (refl, refl, (_, _, refl))
long-table opt_progress = (refl, refl, (_, _, refl))
long-table opt_header = (refl, refl, (_, _, refl))
long-table opt_user_agent = (refl, refl, (_, _, refl))
long-table opt_referer = (refl, refl, (_, _, refl))
long-table opt_no_check_certificate = (refl, refl, (_, _, refl))
long-table opt_ftps_implicit = (refl, refl, (_, _, refl))
long-table opt_connections = (refl, refl, (_, _, refl))
long-table opt_split_size = (refl, refl, (_, _, refl))
long-table opt_buffer_size = (refl, refl, (_, _, refl))
long-table opt_no_parallel = (refl, refl, (_, _, refl))

cut-append :
    (sep : ℕ) (before behind : List ℕ)
    → cut sep before ≡ none
    → cut sep (before ++ (sep ∷ behind)) ≡ some (before, behind)
unfolding cut
cut-append sep [] behind e = ground arith
cut-append sep (c ∷ before) behind e = elim (Bool-cases (c == sep)) [
  | inl same ↦ ground (arith, same, e)
  | inr other ↦ elim (Option-cases (cut sep before)) [
    | inl none_before ↦ ground (arith, other, cut-append sep before behind none_before)
    | inr (pair, found) ↦ ground (arith, other, found, e)
  ]
]

classify-long : (c : ℕ) (s : List ℕ) → classify (b'-' ∷ b'-' ∷ c ∷ s) ≡ long_form (c ∷ s)
unfolding classify same_text bytes strip_prefix
classify-long c s = refl

module _ (parse_seconds : List ℕ → Option ℕ) where
  -- Both spellings, behind `--`.
  joined :
      (opt : CliOption) (p : Parser) (c : ℕ) (value : List ℕ) (next : Option (List ℕ))
      → parse_long_option parse_seconds p (long opt ++ (b'=' ∷ c ∷ value)) next
        ≡ and_then (set_option parse_seconds p opt (c ∷ value)) (λ p'. ok (p', false))
  unfolding parse_long_option long_option
  joined opt p c value next =
      let (found, no_sign, _) = long-table opt in
      rw (cut-append b'=' (long opt) (c ∷ value) no_sign, found, parse_long_option) refl

  apart :
      (opt : CliOption) (p : Parser) (value : List ℕ)
      → takes_arg opt ≡ true
      → parse_long_option parse_seconds p (long opt) (some value)
        ≡ and_then (set_option parse_seconds p opt value) (λ p'. ok (p', true))
  unfolding parse_long_option long_option
  apart opt p value takes =
      let (found, no_sign, _) = long-table opt in
      rw (no_sign, found, parse_long_option) (rw (takes, long_option) refl)

  and_then_ok :
      (o : Outcome Parser) (skip : Bool) (f : Parser → Bool → Outcome (Parser × List (List ℕ)))
      → and_then {B = Parser × List (List ℕ)}
          (and_then {B = Parser × Bool} o (λ p. ok (p, skip)))
          (λ (p, s). f p s)
        ≡ and_then o (λ p. f p skip)
  unfolding and_then
  and_then_ok (ok p) skip f = refl
  and_then_ok (fails e) skip f = refl
  and_then_ok exited skip f = refl

  -- A long option with a non-empty value means the same written --name=value, in one argument, and
  -- written --name value, in two, whatever precedes and follows; this holds for every option of the
  -- table that takes a value.
  pub name_sign_value-name_value :
      (opt : CliOption) (p : Parser) (c : ℕ) (value : List ℕ) (rest : List (List ℕ))
      → takes_arg opt ≡ true
      → parse_options parse_seconds p false
          ((b'-' ∷ b'-' ∷ (long opt ++ (b'=' ∷ c ∷ value))) ∷ rest)
        ≡ parse_options parse_seconds p false ((b'-' ∷ b'-' ∷ long opt) ∷ (c ∷ value) ∷ rest)
  unfolding parse_options handle head?
  name_sign_value-name_value opt p c value rest takes =
      let (_, _, (d, s, e)) = long-table opt in
      let one : classify (b'-' ∷ b'-' ∷ (long opt ++ (b'=' ∷ c ∷ value)))
          ≡ long_form (long opt ++ (b'=' ∷ c ∷ value)) =
        rw e (classify-long d _) in
      let two : classify (b'-' ∷ b'-' ∷ long opt) ≡ long_form (long opt) =
        rw e (classify-long d s) in
      rw (one, two, joined opt p c value (head? rest), apart opt p (c ∷ value) takes)
        (and_then_ok (set_option parse_seconds p opt (c ∷ value)) false _
          ∙ sym (and_then_ok (set_option parse_seconds p opt (c ∷ value)) true _))

-- An argument that does not begin with a dash.
abbrev pub is_plain : List ℕ → Bool
is_plain [] = true
is_plain (c ∷ s) = not (c == b'-')

classify-plain : (arg : List ℕ) → is_plain arg ≡ true → classify arg ≡ positional
unfolding classify same_text bytes strip_prefix
classify-plain [] e = refl
classify-plain (c ∷ s) e = ground (arith, e)

positional_urls-plain :
    (args : List (List ℕ)) → All (λ a. is_plain a ≡ true) args → positional_urls args ≡ args
unfolding positional_urls same_text bytes
positional_urls-plain [] h = refl
positional_urls-plain ([] ∷ args) (e, h) = ap (λ rest. [] ∷ rest) (positional_urls-plain args h)
positional_urls-plain ((c ∷ s) ∷ args) (e, h) = ground (arith, e, positional_urls-plain args h)

parse_options-plain :
    (parse_seconds : List ℕ → Option ℕ) (args : List (List ℕ)) (p : Parser)
    → All (λ a. is_plain a ≡ true) args
    → parse_options parse_seconds p false args ≡ ok (p, args)
unfolding parse_options handle keep
parse_options-plain parse_seconds [] p h = refl
parse_options-plain parse_seconds (arg ∷ args) p (e, h) =
    rw (classify-plain arg e, parse_options-plain parse_seconds args p h) refl

-- A command line of nothing but arguments without a leading dash gives the default plan, with all of
-- them as its URLs, in order.
pub parse-urls :
    (parse_seconds : List ℕ → Option ℕ) (read_file : List ℕ → Option (List ℕ))
    (args : List (List ℕ))
    → All (λ a. is_plain a ≡ true) args
    → parse parse_seconds read_file args ≡ ok (record default_plan { urls = args })
unfolding parse validate add_file_urls collect_urls initial default_plan and_then header_map
parse-urls parse_seconds read_file args h =
    rw (parse_options-plain parse_seconds args initial h, positional_urls-plain args h) refl
