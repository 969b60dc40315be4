-- ===== src/Cli/Options.antt =====
-- internal/cli/parser.go: the table of options. An option is a constructor, its entry in the table the
-- values of `long`, `short` and `takes_arg` at it.
use pget.Base.{ℕ, Bool, true, false, List, [], ◌∷◌, Option, none, some, ◌==◌, bytes, same_text}

pub data CliOption : Type 0 where
  opt_version opt_help opt_quiet opt_verbose opt_no_verbose opt_server_response : CliOption
  opt_output_file opt_append_output opt_output_document opt_continue : CliOption
  opt_no_clobber opt_timestamping opt_background opt_input_file opt_tries : CliOption
  opt_timeout opt_connect_timeout opt_read_timeout opt_retry_connrefused : CliOption
  opt_retry_on_http_error opt_content_disposition opt_no_use_server_timestamps : CliOption
  opt_spider opt_progress opt_header opt_user_agent opt_referer : CliOption
  opt_no_check_certificate opt_ftps_implicit opt_connections opt_split_size : CliOption
  opt_buffer_size opt_no_parallel : CliOption

unfoldable pub long : CliOption → List ℕ
unfolding bytes
long opt_version = bytes "version"
long opt_help = bytes "help"
long opt_quiet = bytes "quiet"
long opt_verbose = bytes "verbose"
long opt_no_verbose = bytes "no-verbose"
long opt_server_response = bytes "server-response"
long opt_output_file = bytes "output-file"
long opt_append_output = bytes "append-output"
long opt_output_document = bytes "output-document"
long opt_continue = bytes "continue"
long opt_no_clobber = bytes "no-clobber"
long opt_timestamping = bytes "timestamping"
long opt_background = bytes "background"
long opt_input_file = bytes "input-file"
long opt_tries = bytes "tries"
long opt_timeout = bytes "timeout"
long opt_connect_timeout = bytes "connect-timeout"
long opt_read_timeout = bytes "read-timeout"
long opt_retry_connrefused = bytes "retry-connrefused"
long opt_retry_on_http_error = bytes "retry-on-http-error"
long opt_content_disposition = bytes "content-disposition"
long opt_no_use_server_timestamps = bytes "no-use-server-timestamps"
long opt_spider = bytes "spider"
long opt_progress = bytes "progress"
long opt_header = bytes "header"
long opt_user_agent = bytes "user-agent"
long opt_referer = bytes "referer"
long opt_no_check_certificate = bytes "no-check-certificate"
long opt_ftps_implicit = bytes "ftps-implicit"
long opt_connections = bytes "connections"
long opt_split_size = bytes "split-size"
long opt_buffer_size = bytes "buffer-size"
long opt_no_parallel = bytes "no-parallel"

-- 0 is the zero rune of an option that has no short form.
unfoldable pub short : CliOption → ℕ
short opt_version = b'V'
short opt_help = b'h'
short opt_quiet = b'q'
short opt_verbose = b'v'
short opt_server_response = b'S'
short opt_output_file = b'o'
short opt_append_output = b'a'
short opt_output_document = b'O'
short opt_continue = b'c'
short opt_timestamping = b'N'
short opt_background = b'b'
short opt_input_file = b'i'
short opt_tries = b't'
short opt_timeout = b'T'
short _ = 0

unfoldable pub takes_arg : CliOption → Bool
takes_arg opt_output_file = true
takes_arg opt_append_output = true
takes_arg opt_output_document = true
takes_arg opt_input_file = true
takes_arg opt_tries = true
takes_arg opt_timeout = true
takes_arg opt_connect_timeout = true
takes_arg opt_read_timeout = true
takes_arg opt_retry_on_http_error = true
takes_arg opt_progress = true
takes_arg opt_header = true
takes_arg opt_user_agent = true
takes_arg opt_referer = true
takes_arg opt_connections = true
takes_arg opt_split_size = true
takes_arg opt_buffer_size = true
takes_arg _ = false

unfoldable pub options : List CliOption
options =
    opt_version ∷ opt_help ∷ opt_quiet ∷ opt_verbose ∷ opt_no_verbose ∷ opt_server_response
    ∷ opt_output_file ∷ opt_append_output ∷ opt_output_document ∷ opt_continue ∷ opt_no_clobber
    ∷ opt_timestamping ∷ opt_background ∷ opt_input_file ∷ opt_tries ∷ opt_timeout
    ∷ opt_connect_timeout ∷ opt_read_timeout ∷ opt_retry_connrefused ∷ opt_retry_on_http_error
    ∷ opt_content_disposition ∷ opt_no_use_server_timestamps ∷ opt_spider ∷ opt_progress
    ∷ opt_header ∷ opt_user_agent ∷ opt_referer ∷ opt_no_check_certificate ∷ opt_ftps_implicit
    ∷ opt_connections ∷ opt_split_size ∷ opt_buffer_size ∷ opt_no_parallel ∷ []

unfoldable pub find_long : List ℕ → List CliOption → Option CliOption
unfolding long same_text
find_long name [] = none
find_long name (opt ∷ rest) =
    let later = find_long name rest in
    elim (same_text (long opt) name) [ true ↦ some opt | false ↦ later ]

-- `optByName`, whose keys are different.
unfoldable pub opt_by_name : List ℕ → Option CliOption
unfolding find_long options
opt_by_name name = find_long name options

unfoldable pub find_short : ℕ → List CliOption → Option CliOption
unfolding short
find_short r [] = none
find_short r (opt ∷ rest) =
    let later = find_short r rest in elim (short opt == r) [ true ↦ some opt | false ↦ later ]
