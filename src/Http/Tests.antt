-- ===== src/Http/Tests.antt =====
-- Responses, and the theorems on what the adapter makes of them.
use pget.Base.{
  ℕ, ◌≡◌, refl, true, false, List, [], Option, none, some, bytes, same_text, ◌++◌, ◌∷◌, arith,
}
use pget.Base.Decimal.{decimal}
use pget.Http.Range.Accepts.{span, content_range}
use pget.Http.Request.{RequestOptions, get_header, range_headers}
use pget.Http.Request.Answered.{IsStandard, range_request-answered}
use pget.Http.Filename.{extract_filename, IsSafeName, extract_filename-IsSafeName}
use pget.Http.Range.{
  Response, range_bounds, check_range, check_range-exact, parse_content_range_total,
}
use pget.Http.Probe.{ProbeResult, probe, IsUsable, probe-IsUsable}

traversal_test :
    extract_filename (bytes "attachment; filename=\"../x\"") (bytes "/a") ≡ bytes ".._x"
unfolding extract_filename bytes
traversal_test = refl

extract_filename-IsSafeName_example :
    IsSafeName (extract_filename (bytes "filename=..") (bytes "/a"))
extract_filename-IsSafeName_example = extract_filename-IsSafeName (bytes "filename=..") (bytes "/a")

abbrev first_kilobyte : Response
first_kilobyte = record {
  status = 206;
  content_range = bytes "bytes 0-1023/4096";
  content_length = 1024;
  etag = bytes "W/\"1\"";
  last_modified = bytes "Tue, 01 Jul 2025 00:00:00 GMT";
  content_disposition = [];
  url_path = bytes "/file.bin";
  final_url = bytes "http://h/file.bin";
  display_url = bytes "http://h/file.bin";
  scheme = bytes "http";
}

first_kilobyte_accepted : check_range first_kilobyte 0 1024 ≡ none
unfolding check_range bytes
first_kilobyte_accepted = refl

check_range-exact_example :
    (first_kilobyte.status ≡ 206)
    × (range_bounds first_kilobyte.content_range ≡ some (0, 1023))
    × (first_kilobyte.content_length ≡ 1024)
check_range-exact_example = check_range-exact first_kilobyte 0 1024 first_kilobyte_accepted

abbrev no_time : List ℕ → Option ℕ
no_time text = none

probed : Option ProbeResult → ProbeResult
probed (some r) = r
probed none = record {
  etag = [];
  last_modified = [];
  size = 0;
  range_capable = false;
  meta_size = 0;
  meta_etag = [];
  meta_last_modified = [];
  meta_range_capable = false;
  mod_time = none;
  filename = [];
  final_url = [];
  display_url = [];
  protocol = [];
}

abbrev kilobyte_result : ProbeResult
kilobyte_result = probed (probe no_time first_kilobyte)

kilobyte_probed : probe no_time first_kilobyte ≡ some kilobyte_result
unfolding probe probed
kilobyte_probed = refl

kilobyte_capable : kilobyte_result.range_capable ≡ true
unfolding probe probed bytes
kilobyte_capable = refl

probe-IsUsable_example : (first_kilobyte.status ≡ 206) × IsUsable first_kilobyte kilobyte_result
probe-IsUsable_example =
    probe-IsUsable no_time first_kilobyte kilobyte_result kilobyte_probed kilobyte_capable

-- The names are spelled as they are given.
abbrev as_given : List ℕ → List ℕ
as_given name = name

as_given-IsStandard : IsStandard as_given
as_given-IsStandard = record {
  range = refl;
  accept_encoding = refl;
  if_range = refl;
  user_agent = refl;
  referer = refl;
}

abbrev browser : RequestOptions
browser = record {
  user_agent = bytes "pget";
  referer = [];
  headers = (bytes "Cookie", bytes "a=1") ∷ [];
}

-- A Range header of the user takes the place of the adapter's.
overridden_test :
    get_header
      (bytes "Range")
      (range_headers as_given 0 1024 [] (record browser { headers = (bytes "Range", []) ∷ [] }))
    ≡ []
unfolding get_header range_headers bytes decimal same_text
overridden_test = refl

range_request-answered_example :
    (get_header (bytes "Range") (range_headers as_given 0 1024 first_kilobyte.etag browser)
      ≡ bytes "bytes=" ++ span 0 1023)
    × (check_range first_kilobyte 0 1024 ≡ none)
    × (parse_content_range_total first_kilobyte.content_range ≡ some 4096)
unfolding content_range decimal bytes same_text
range_request-answered_example =
    range_request-answered as_given as_given-IsStandard 0 1024 4096 first_kilobyte.etag browser
      first_kilobyte (refl, tt) (omega arith) (omega arith) (omega arith) (omega arith) refl refl
      refl
