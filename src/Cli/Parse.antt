-- ===== src/Cli/Parse.antt =====
-- internal/cli/parser.go: validate and Parse. `read_file` stands for os.ReadFile, `none` for its error.
use pget.Base.{
  ℕ, Bool, true, false, not, ◌&&◌, List, [], ◌∷◌, ◌++◌, Option, none, some, if◌then◌else◌, bytes,
  same_text, has_prefix, cut, split, trim_space,
}
use pget.Base.Int64.{lt64}
use pget.Cli.{ExecutionPlan, default_plan, output_stdout, continue_auto, background_child}
use pget.Cli.Setting.{
  Outcome, and_then, Parser, ok, fails, invalid_header, reading_input, buffer_too_small,
  background_with_stdout, continue_with_stdout,
}
use pget.Cli.Parser.{parse_options}

unfoldable pub is_stdout : ExecutionPlan → Bool
is_stdout plan = elim plan.output_mode [ output_stdout ↦ true | _ ↦ false ]

unfoldable pub is_continued : ExecutionPlan → Bool
is_continued plan = elim plan.continue_mode [ continue_auto ↦ true | _ ↦ false ]

unfoldable pub is_background : ExecutionPlan → Bool
is_background plan = elim plan.background [ background_child ↦ true | _ ↦ false ]

-- An assignment to a key of the map.
unfoldable pub insert : List ℕ → List ℕ → List (List ℕ × List ℕ) → List (List ℕ × List ℕ)
unfolding same_text
insert name value [] = (name, value) ∷ []
insert name value ((n, v) ∷ entries) =
    let rest = insert name value entries in
    if same_text n name then (n, value) ∷ entries else (n, v) ∷ rest

unfoldable pub header_map :
    List (List ℕ) → List (List ℕ × List ℕ) → Outcome (List (List ℕ × List ℕ))
unfolding cut trim_space insert
header_map [] entries = ok entries
header_map (h ∷ headers) entries = elim (cut b':' h) [
  | none ↦ fails (invalid_header h)
  | some (name, value) ↦ header_map headers (insert (trim_space name) (trim_space value) entries)
]

unfoldable pub check_output : ExecutionPlan → Outcome ExecutionPlan
unfolding is_stdout is_continued
check_output plan =
    if is_stdout plan && is_continued plan then fails continue_with_stdout else ok plan

-- `--no-parallel` forces one connection.
unfoldable pub force_single : Bool → ExecutionPlan → ExecutionPlan
force_single true plan = record plan { connections = 1 }
force_single false plan = plan

unfoldable pub check_sizes : ExecutionPlan → Outcome ExecutionPlan
unfolding check_output force_single
check_sizes plan =
    if lt64 plan.buffer_size plan.split_size
    then fails (buffer_too_small plan.buffer_size plan.split_size)
    else check_output (force_single plan.no_parallel plan)

unfoldable pub validate : Parser → Outcome ExecutionPlan
unfolding check_sizes header_map is_stdout is_background
validate p =
    if is_background p.plan && is_stdout p.plan
    then fails background_with_stdout
    else and_then (header_map p.headers [])
        (λ entries. check_sizes (record p.plan { extra_headers = entries }))

-- The positional arguments other than `-`.
unfoldable pub positional_urls : List (List ℕ) → List (List ℕ)
unfolding same_text bytes
positional_urls [] = []
positional_urls (arg ∷ args) =
    let rest = positional_urls args in if same_text arg (bytes "-") then rest else arg ∷ rest

unfoldable pub is_url_line : List ℕ → Bool
unfolding has_prefix bytes
is_url_line [] = false
is_url_line (c ∷ line) = not (has_prefix (c ∷ line) (bytes "#"))

unfoldable pub file_urls : List (List ℕ) → List (List ℕ)
unfolding is_url_line trim_space
file_urls [] = []
file_urls (line ∷ lines) =
    let rest = file_urls lines in
    if is_url_line (trim_space line) then trim_space line ∷ rest else rest

unfoldable pub add_file_content : Parser → List ℕ → Option (List ℕ) → Outcome Parser
unfolding file_urls split
add_file_content p path none = fails (reading_input path)
add_file_content p path (some content) =
    ok (record p { plan = record p.plan { urls = p.plan.urls ++ file_urls (split 10 content) } })

unfoldable pub collect_urls : Parser → List (List ℕ) → Parser
unfolding positional_urls
collect_urls p remaining = record p {
  plan = record p.plan { urls = p.plan.urls ++ positional_urls remaining };
}

unfoldable pub initial : Parser
unfolding default_plan
initial = record { plan = default_plan; headers = [] }

module _ (parse_seconds : List ℕ → Option ℕ) (read_file : List ℕ → Option (List ℕ)) where
  unfoldable pub add_file_urls : Parser → List ℕ → Outcome Parser
  unfolding add_file_content
  add_file_urls p [] = ok p
  add_file_urls p (c ∷ path) = add_file_content p (c ∷ path) (read_file (c ∷ path))

  unfoldable pub parse : List (List ℕ) → Outcome ExecutionPlan
  unfolding initial add_file_urls collect_urls validate parse_options
  parse args = and_then (parse_options parse_seconds initial false args) (λ (p, remaining).
      and_then (add_file_urls (collect_urls p remaining) p.plan.input_file) validate)
