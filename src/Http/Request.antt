-- ===== src/Http/Request.antt =====
-- internal/adapter/http/adapter.go: the headers of the requests of Probe, OpenRange and OpenSequential.
-- `canonical` stands for the spelling that net/http gives a header's name.
pub mod Answered
use pget.Base.{
  ℕ, ◌-◌, Bool, true, false, List, [], ◌∷◌, ◌++◌, Option, none, some, ltb, if◌then◌else◌, bytes,
  same_text,
}
use pget.Base.Decimal.{decimal}
use pget.Base.Int64.{add64, sub64, lt64, is_negative, modulus}
use pget.Cli.{ExecutionPlan}

abbrev pub Headers : Type 0
Headers = List (List ℕ × List ℕ)

-- The part of adapter.RequestOptions that the requests use, which Run takes from the plan.
pub record RequestOptions : Type 0 where
  pub user_agent : List ℕ
  pub referer : List ℕ
  pub headers : Headers

unfoldable pub request_options : ExecutionPlan → RequestOptions
request_options plan = record {
  user_agent = plan.user_agent;
  referer = plan.referer;
  headers = plan.extra_headers;
}

-- The verb %d on an int64.
unfoldable pub signed_decimal : ℕ → List ℕ
signed_decimal n = if is_negative n then b'-' ∷ decimal (modulus - n) else decimal n

unfoldable pub remove_header : List ℕ → Headers → Headers
unfolding same_text
remove_header name [] = []
remove_header name ((n, v) ∷ headers) =
    let rest = remove_header name headers in if same_text n name then rest else (n, v) ∷ rest

-- Header.Get, whose missing header is the empty text.
unfoldable pub get_header : List ℕ → Headers → List ℕ
unfolding same_text
get_header name [] = []
get_header name ((n, v) ∷ headers) =
    let rest = get_header name headers in if same_text n name then v else rest

unfoldable pub range_text : ℕ → ℕ → List ℕ
unfolding bytes signed_decimal
range_text first last = bytes "bytes=" ++ signed_decimal first ++ b'-' ∷ signed_decimal last

module _ (canonical : List ℕ → List ℕ) where
  -- Header.Set
  unfoldable pub set_header : List ℕ → List ℕ → Headers → Headers
  unfolding remove_header
  set_header name value headers = (canonical name, value) ∷ remove_header (canonical name) headers

  unfoldable pub set_nonempty : List ℕ → List ℕ → Headers → Headers
  unfolding set_header same_text
  set_nonempty name value headers =
      if same_text value [] then headers else set_header name value headers

  unfoldable pub set_all : Headers → Headers → Headers
  unfolding set_header
  set_all [] headers = headers
  set_all ((name, value) ∷ extra) headers = set_all extra (set_header name value headers)

  unfoldable pub set_headers : RequestOptions → Headers → Headers
  unfolding set_all set_nonempty bytes
  set_headers opts headers = set_all opts.headers (
      set_nonempty (bytes "Referer") opts.referer
        (set_nonempty (bytes "User-Agent") opts.user_agent headers))

  unfoldable pub accept_identity : Headers → Headers
  unfolding set_header bytes
  accept_identity headers = set_header (bytes "Accept-Encoding") (bytes "identity") headers

  unfoldable pub probe_headers : RequestOptions → Headers
  unfolding set_headers accept_identity set_header bytes
  probe_headers opts =
      set_headers opts (accept_identity (set_header (bytes "Range") (bytes "bytes=0-0") []))

  -- Both branches of the test for a strong ETag set the same header.
  unfoldable pub range_headers : ℕ → ℕ → List ℕ → RequestOptions → Headers
  unfolding set_headers set_nonempty accept_identity set_header range_text bytes
  range_headers start length validator opts =
      let last = sub64 (add64 start length) 1 in
      set_headers opts (
        set_nonempty (bytes "If-Range") validator
          (accept_identity (set_header (bytes "Range") (range_text start last) [])))

  unfoldable pub sequential_headers : ℕ → RequestOptions → Headers
  unfolding set_headers accept_identity set_header signed_decimal bytes
  sequential_headers offset opts =
      let from = bytes "bytes=" ++ signed_decimal offset ++ b'-' ∷ [] in
      set_headers opts
        (accept_identity (if lt64 0 offset then set_header (bytes "Range") from [] else []))
