-- ===== src/Cli.antt =====
-- internal/cli/plan.go and the defaults of internal/cli/parser.go. A text is the list of its bytes, a
-- number or duration an int64 bit pattern, a map the list of its pairs.
pub mod Options
pub mod Size
pub mod Setting
pub mod Parser
pub mod Parse
pub mod Sound
pub mod Handlers
pub mod Validity
pub mod Spelling
mod Tests
use pget.Base.{ℕ, ◌*◌, ◌^◌, Bool, true, false, List, [], bytes}

pub data OutputMode : Type 0 where
  output_file output_single output_stdout : OutputMode

pub data ContinueMode : Type 0 where
  continue_none continue_auto : ContinueMode

pub data TimestampMode : Type 0 where
  timestamp_none timestamp_check : TimestampMode

pub data LogMode : Type 0 where
  log_stderr log_file log_append : LogMode

pub data BackgroundMode : Type 0 where
  background_none background_child : BackgroundMode

pub record ExecutionPlan : Type 0 where
  pub urls : List (List ℕ)
  pub output_path : List ℕ
  pub output_mode : OutputMode
  pub quiet : Bool
  pub verbose : Bool
  pub no_verbose : Bool
  pub server_resp : Bool
  pub log_mode : LogMode
  pub log_path : List ℕ
  pub continue_mode : ContinueMode
  pub no_clobber : Bool
  pub timestamp_mode : TimestampMode
  pub content_disposition : Bool
  pub no_use_server_timestamps : Bool
  pub spider : Bool
  pub input_file : List ℕ
  pub connections : ℕ
  pub split_size : ℕ
  pub buffer_size : ℕ
  pub no_parallel : Bool
  pub max_tries : ℕ
  pub timeout : ℕ
  pub connect_timeout : ℕ
  pub read_timeout : ℕ
  pub retry_conn_refused : Bool
  pub retry_on_http_error : List ℕ
  pub user_agent : List ℕ
  pub referer : List ℕ
  pub extra_headers : List (List ℕ × List ℕ)
  pub insecure_skip_verify : Bool
  pub ftps_implicit : Bool
  pub progress_type : List ℕ
  pub background : BackgroundMode

-- The plan that `Parse` starts from.
unfoldable pub default_plan : ExecutionPlan
unfolding bytes
default_plan = record {
  urls = [];
  output_path = [];
  output_mode = output_file;
  quiet = false;
  verbose = false;
  no_verbose = false;
  server_resp = false;
  log_mode = log_stderr;
  log_path = [];
  continue_mode = continue_none;
  no_clobber = false;
  timestamp_mode = timestamp_none;
  content_disposition = false;
  no_use_server_timestamps = false;
  spider = false;
  input_file = [];
  connections = 8;
  split_size = 8 * 2 ^ 20;
  buffer_size = 128 * 2 ^ 20;
  no_parallel = false;
  max_tries = 20;
  timeout = 0;
  connect_timeout = 0;
  read_timeout = 0;
  retry_conn_refused = false;
  retry_on_http_error = [];
  user_agent = [];
  referer = [];
  extra_headers = [];
  insecure_skip_verify = false;
  ftps_implicit = false;
  progress_type = bytes "bar";
  background = background_none;
}
