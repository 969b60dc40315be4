-- ===== src/Ftp/Address.antt =====
-- internal/adapter/ftp/adapter.go: resolveAddr, dial and its login, Probe, and which command
-- OpenSequential sends. `Url` is what net/url makes of a URL's text.
use pget.Base.{
  ℕ, ◌-◌, Bool, ◌&&◌, ◌||◌, not, List, [], ◌++◌, Option, none, some, if◌then◌else◌, bytes,
  same_text, behind_last,
}
use pget.Base.Int64.{modulus, lt64}
use pget.Http.Probe.{ProbeResult}
use pget.Job.Exit.{contains}

pub record Url : Type 0 where
  pub text : List ℕ
  pub scheme : List ℕ
  pub host : List ℕ
  pub port : List ℕ
  pub path : List ℕ
  pub raw_query : List ℕ
  -- the name and, if it is set, the password
  pub user : Option (List ℕ × Option (List ℕ))
  -- the text without the user
  pub display : List ℕ

pub data Resolved : Type 0 where
  missing_host missing_path : Resolved
  address : List ℕ → List ℕ → List ℕ → Resolved

unfoldable pub is_implicit_ftps : Url → Bool
unfolding contains bytes
is_implicit_ftps u = contains u.raw_query (bytes "implicit=1")

unfoldable pub is_ftps : Url → Bool
unfolding same_text bytes
is_ftps u = same_text u.scheme (bytes "ftps")

unfoldable pub port_of : Url → List ℕ
unfolding same_text is_ftps is_implicit_ftps bytes
port_of u =
    if not (same_text u.port [])
    then u.port
    else if is_ftps u && is_implicit_ftps u
    then bytes "990"
    else bytes "21"

unfoldable pub is_root : List ℕ → Bool
unfolding same_text bytes
is_root path = same_text path [] || same_text path (bytes "/")

unfoldable pub resolve_addr : Url → Resolved
unfolding same_text port_of is_root
resolve_addr u =
    if same_text u.host []
    then missing_host
    else if is_root u.path
    then missing_path
    else address u.host (port_of u) u.path

-- What dial asks of the client library.
pub record Login : Type 0 where
  pub addr : List ℕ
  pub with_tls : Bool
  pub user : List ℕ
  pub pass : List ℕ

unfoldable pub user_name : Option (List ℕ × Option (List ℕ)) → List ℕ
unfolding bytes
user_name none = bytes "anonymous"
user_name (some (user, pass)) = user

unfoldable pub password : Option (List ℕ × Option (List ℕ)) → List ℕ
unfolding bytes
password (some (user, some pass)) = pass
password (some (user, none)) = bytes "pget@"
password none = bytes "pget@"

unfoldable pub dial : Url → List ℕ → List ℕ → Login
unfolding is_ftps user_name password bytes
dial u host port = record {
  addr = host ++ bytes ":" ++ port;
  with_tls = is_ftps u;
  user = user_name u.user;
  pass = password u.user;
}

unfoldable pub extract_filename : List ℕ → List ℕ
unfolding is_root behind_last same_text bytes
extract_filename path =
    if is_root path
    then bytes "index.html"
    else elim (behind_last b'/' path) [ some name ↦ name | none ↦ bytes "index.html" ]

-- FileSize returns a size beside an error; GetTime a time or an error.
pub record Server : Type 0 where
  pub connects : Login → Bool
  pub file_size : List ℕ → ℕ × Bool
  pub time : List ℕ → Option ℕ

-- A size of -1 is the bit pattern of an int64.
unfoldable pub described : Url → List ℕ → ℕ × Bool → Option ℕ → ProbeResult
unfolding extract_filename
described u path (size, failed) mtime = record {
  etag = [];
  last_modified = [];
  size = if failed then 0 else size;
  range_capable = lt64 0 size;
  meta_size = if failed then modulus - 1 else size;
  meta_etag = [];
  meta_last_modified = [];
  meta_range_capable = lt64 0 size;
  mod_time = mtime;
  filename = extract_filename path;
  final_url = u.text;
  display_url = u.display;
  protocol = u.scheme;
}

unfoldable pub probe_at : Url → Server → Resolved → Option ProbeResult
unfolding dial described
probe_at u server missing_host = none
probe_at u server missing_path = none
probe_at u server (address host port path) =
    if server.connects (dial u host port)
    then some (described u path (server.file_size path) (server.time path))
    else none

unfoldable pub probe : Url → Server → Option ProbeResult
unfolding resolve_addr probe_at
probe u server = probe_at u server (resolve_addr u)

-- The offset of RetrFrom; `none` is Retr.
unfoldable pub retr_offset : ℕ → Option ℕ
retr_offset offset = if lt64 0 offset then some offset else none
