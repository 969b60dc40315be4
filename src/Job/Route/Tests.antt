-- ===== src/Job/Route/Tests.antt =====
-- A site with a sidecar, and what runOneJob decides there.
use pget.Base.{ltb, ◌&&◌, ℕ, ◌≡◌, refl, Bool, true, false, List, [], ◌∷◌, Option, none, some, bytes}
use pget.Cli.{ExecutionPlan, default_plan, output_single}
use pget.Http.Probe.{ProbeResult}
use pget.Chunk.{quotient_up}
use pget.Sidecar.Base64.{decode, sextet}
use pget.Sidecar.Bitmap.{decode_bitmap, test_bit}
use pget.Base.Int64.{div64}
use mathlib.Core.Bool.{xor}
use pget.Sidecar.Manager.{Item, State, stored, current_version, exists}
use pget.Job.Route.{
  Site, panics, parallel_file, any_marked, completed_chunks, use_parallel, run_one_job,
}
use pget.Job.Download.NewSidecar.{new_item, new_item-marks}
use pget.Job.Route.Resumed.{marked_download-IsResumed}

abbrev url : List ℕ
url = bytes "http://h/a"

abbrev out : List ℕ
out = 111 ∷ []

abbrev job : ExecutionPlan
job = record default_plan {
  output_mode = output_single;
  output_path = out;
  connections = 2;
  split_size = 4;
}

abbrev found : ProbeResult
found = record {
  etag = [];
  last_modified = [];
  size = 6;
  range_capable = true;
  meta_size = 6;
  meta_etag = [];
  meta_last_modified = [];
  meta_range_capable = true;
  mod_time = none;
  filename = [];
  final_url = [];
  display_url = [];
  protocol = [];
}

-- The bitmap of one byte whose lowest bit is set.
abbrev half_done : Item
half_done = record {
  source_url_hash = [];
  final_url_hash = [];
  display_url = [];
  output_offset = 0;
  length = 6;
  split_size = 4;
  etag = [];
  last_modified = [];
  remote_mtime_unix = 0;
  completed_bitmap = bytes "AQ";
  complete = false;
}

abbrev kept : State
kept = record {
  version = 1;
  destination = out;
  url_list_hash = [];
  created_at = 0;
  updated_at = 0;
  items = half_done ∷ [];
}

abbrev site : Site
site = record {
  looked_up = none;
  probed = some found;
  dir_made = λ path. true;
  stat = λ path. none;
  sidecar = λ path. stored kept;
}

abbrev marks : Option (ℕ → Bool) → ℕ → Bool
marks none j = false
marks (some done) j = done j

abbrev done_before : ℕ → Bool
done_before = marks (completed_chunks (half_done ∷ []))

first_done : done_before 0 ≡ true
unfolding completed_chunks decode_bitmap bytes quotient_up decode sextet div64 xor test_bit
first_done = refl

second_missing : done_before 1 ≡ false
unfolding completed_chunks decode_bitmap bytes quotient_up decode sextet div64 xor test_bit
second_missing = refl

resumed_test : run_one_job job url url site ≡ (false, parallel_file url out found done_before)
unfolding run_one_job default_plan exists quotient_up any_marked decode_bitmap decode sextet div64
    xor test_bit
resumed_test = refl

marked_download-IsResumed_example :
    (some found ≡ some found)
    × (use_parallel job found ≡ true)
    × ((s : State) × (item : Item) × (rest : List Item) × (stored kept ≡ stored s)
        × (s.version ≡ current_version)
        × (s.items ≡ item ∷ rest)
        × (item.length ≡ 6))
marked_download-IsResumed_example =
    marked_download-IsResumed job url url url out site false found done_before 0 resumed_test
      first_done

-- With a split size of zero, the message of what is resumed divides by it.
no_split_test : run_one_job (record job { split_size = 0 }) url url site ≡ (false, panics)
unfolding run_one_job default_plan exists quotient_up any_marked decode_bitmap decode sextet div64
    xor test_bit bytes
no_split_test = refl

abbrev same_hash : List ℕ → List ℕ
same_hash text = text

two_chunks : quotient_up 4 6 ≡ some 2
unfolding quotient_up div64 xor
two_chunks = refl

new_item-marks_example :
    (kept_marks : ℕ → Bool) × (completed_chunks
        (new_item same_hash url url 0 found 4 done_before 2 ∷ [])
      ≡ some kept_marks)
    × (kept_marks 1 ≡ (ltb 1 2 && done_before 1))
new_item-marks_example = new_item-marks same_hash url url 0 4 found done_before 2 2 1 two_chunks
