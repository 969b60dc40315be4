-- ===== src/Cli/Tests.antt =====
-- Runs of the parser, and the theorems on it at concrete command lines.
use pget.Base.{
  ℕ, ◌*◌, ◌^◌, ◌≡◌, refl, true, false, List, [], ◌∷◌, Option, none, some, bytes, natural,
}
use pget.Cli.{ExecutionPlan, default_plan, output_single}
use pget.Cli.Options.{opt_by_name, long, takes_arg, opt_tries}
use pget.Cli.Size.{parse_size}
use pget.Cli.Setting.{
  Outcome, and_then, set_option, ok, fails, unrecognized_option, requires_argument,
  continue_with_stdout,
}
use pget.Cli.Parser.{parse_options, head?, keep}
use pget.Cli.Parse.{initial, parse}
use pget.Cli.Validity.{IsValid, parse-IsValid}
use pget.Cli.Spelling.{name_sign_value-name_value}

-- Whole seconds, and a file system with one file.
abbrev whole_seconds : List ℕ → Option ℕ
unfolding natural
whole_seconds text = elim (natural text) [ none ↦ none | some n ↦ some (n * 10 ^ 9) ]

abbrev one_file : List ℕ → Option (List ℕ)
one_file path = some (bytes "# list\n http://a/1 \n\nhttp://a/2")

run : List (List ℕ) → Outcome ExecutionPlan
run args = parse whole_seconds one_file args

urls_of : Outcome ExecutionPlan → List (List ℕ)
urls_of (ok plan) = plan.urls
urls_of _ = []

input_file_test :
    urls_of (run (bytes "-i" ∷ bytes "list" ∷ bytes "http://b/" ∷ bytes "-" ∷ []))
    ≡ bytes "http://b/" ∷ bytes "http://a/1" ∷ bytes "http://a/2" ∷ []
unfolding urls_of run parse bytes and_then opt_by_name takes_arg set_option head? keep
input_file_test = refl

negative_test :
    urls_of (run (bytes "-5" ∷ bytes "--" ∷ bytes "-q" ∷ [])) ≡ bytes "-5" ∷ bytes "-q" ∷ []
unfolding urls_of run parse bytes and_then opt_by_name takes_arg set_option head? keep
negative_test = refl

unknown_test : run (bytes "--colour=no" ∷ []) ≡ fails (unrecognized_option (bytes "colour"))
unfolding run parse bytes and_then opt_by_name takes_arg set_option head? keep
unknown_test = refl

missing_test : run (bytes "--tries" ∷ []) ≡ fails (requires_argument (bytes "tries"))
unfolding run parse bytes and_then opt_by_name takes_arg set_option head? keep
missing_test = refl

stdout_test : run (bytes "-qcO-" ∷ []) ≡ fails continue_with_stdout
unfolding run parse bytes and_then opt_by_name takes_arg set_option head? keep
stdout_test = refl

size_test : parse_size (bytes " 2mb ") ≡ some (2 * 2 ^ 20)
unfolding parse_size bytes
size_test = refl

-- The suffix KiB is read as no suffix.
kib_test : parse_size (bytes "64KiB") ≡ some 64
unfolding parse_size bytes
kib_test = refl

-- The product wraps around.
overflow_test : parse_size (bytes "17179869184G") ≡ some 0
unfolding parse_size bytes
overflow_test = refl

command_line : List (List ℕ)
command_line =
    bytes "--no-parallel"
    ∷ bytes "-t"
    ∷ bytes "3"
    ∷ bytes "-O"
    ∷ bytes "out"
    ∷ bytes "http://b/"
    ∷ []

planned : ExecutionPlan
unfolding default_plan
planned = record default_plan {
  urls = bytes "http://b/" ∷ [];
  output_path = bytes "out";
  output_mode = output_single;
  no_parallel = true;
  connections = 1;
  max_tries = 3;
}

planned-run : run command_line ≡ ok planned
unfolding run parse bytes command_line planned and_then opt_by_name takes_arg set_option head? keep
planned-run = refl

parse-IsValid_example : IsValid planned
unfolding run
parse-IsValid_example = parse-IsValid whole_seconds one_file command_line planned planned-run

name_sign_value-name_value_example :
    parse_options whole_seconds initial false (bytes "--tries=5" ∷ bytes "u" ∷ [])
    ≡ parse_options whole_seconds initial false (bytes "--tries" ∷ bytes "5" ∷ bytes "u" ∷ [])
unfolding bytes long takes_arg
name_sign_value-name_value_example =
    name_sign_value-name_value whole_seconds opt_tries initial b'5' [] (bytes "u" ∷ []) refl
