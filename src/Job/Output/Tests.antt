-- ===== src/Job/Output/Tests.antt =====
-- Runs with one output for two URLs, and a job whose output the run has just created.
use pget.Base.{
  ℕ, ◌≡◌, refl, true, false, List, [], ◌∷◌, Option, none, some, arith, bytes, drop, same_text,
}
use pget.Cli.{ExecutionPlan, default_plan, output_single, continue_auto}
use pget.Cli.Parse.{is_continued}
use pget.Http.Probe.{ProbeResult}
use pget.Http.Sequential.{Reply, reply}
use pget.Sidecar.Manager.{absent}
use pget.Job.Exit.{exit_success, exit_network_fail}
use pget.Job.Route.{Site, exited, run_one_job}
use pget.Job.Output.{continued_file, run_single}
use pget.Job.Output.Concatenated.{
  in_sequence, in_parallel, broken_off, run_single-concat, run_single-overwrites,
}
use pget.Job.Output.Continued.{run_single-skips}
use pget.Job.Output.Created.{created_site, no_clobber-exited}

abbrev old : List ℕ
old = 9 ∷ 9 ∷ 9 ∷ 9 ∷ 9 ∷ []

abbrev first : List ℕ
first = 1 ∷ 2 ∷ 3 ∷ []

abbrev second : List ℕ
second = 4 ∷ 5 ∷ []

run_single-concat_example :
    (run_single true old (in_sequence first ∷ in_sequence second ∷ [])
      ≡ (exit_success, 1 ∷ 2 ∷ 3 ∷ 4 ∷ 5 ∷ []))
    × (run_single true old
          (in_sequence first ∷ in_sequence second ∷ broken_off 4 (6 ∷ []) ∷ in_parallel first ∷ [])
        ≡ (exit_network_fail, 1 ∷ 2 ∷ 3 ∷ 4 ∷ 5 ∷ 6 ∷ []))
run_single-concat_example =
    run_single-concat old (first ∷ second ∷ []) 4 (6 ∷ []) (in_parallel first ∷ []) (omega arith)

run_single-overwrites_example :
    run_single true old (in_parallel first ∷ in_sequence second ∷ [])
    ≡ (exit_success, 4 ∷ 5 ∷ 3 ∷ [])
run_single-overwrites_example = run_single-overwrites old first second (omega arith)

abbrev out : List ℕ
out = 111 ∷ []

abbrev plan : ExecutionPlan
plan = record default_plan { output_mode = output_single; output_path = out; no_clobber = true }

abbrev site : Site
site = record {
  looked_up = none;
  probed = none;
  dir_made = λ path. true;
  stat = λ path. none;
  sidecar = λ path. absent;
}

no_clobber-exited_example :
    run_one_job plan (bytes "http://h/a") [] (created_site site out 0 7)
    ≡ (false, exited exit_success)
unfolding default_plan same_text
no_clobber-exited_example =
    no_clobber-exited plan (bytes "http://h/a") [] site 0 7 refl refl refl refl refl

abbrev found : ProbeResult
found = record {
  etag = [];
  last_modified = [];
  size = 4;
  range_capable = true;
  meta_size = 4;
  meta_etag = [];
  meta_last_modified = [];
  meta_range_capable = true;
  mod_time = none;
  filename = [];
  final_url = [];
  display_url = [];
  protocol = [];
}

abbrev again : ExecutionPlan
again = record default_plan {
  output_mode = output_single;
  output_path = out;
  continue_mode = continue_auto;
}

-- A server of the source 1, 2, 3, 4, which answers ranges.
abbrev ranging : Option ℕ → Reply
ranging none = reply 200 (1 ∷ 2 ∷ 3 ∷ 4 ∷ []) true
ranging (some n) = reply 206 (drop n (1 ∷ 2 ∷ 3 ∷ 4 ∷ [])) true

run_single-skips_example :
    run_single true old (in_sequence second ∷ continued_file again 4 true ranging ∷ [])
    ≡ (exit_success, 4 ∷ 5 ∷ 3 ∷ 4 ∷ [])
run_single-skips_example =
    run_single-skips old second (1 ∷ 2 ∷ 3 ∷ 4 ∷ []) again 4 ranging (omega arith) (omega arith)
      (unfold is_continued default_plan in refl) refl (refl, λ n lt. refl) (omega arith)
