-- ===== src/Job/Tests.antt =====
-- Names, labels and exit codes at concrete inputs.
use pget.Base.{
  ℕ, ◌≡◌, ◌≢◌, ◌≤◌, ◌↔◌, refl, Bool, true, false, List, [], ◌∷◌, Option, none, some, arith, bytes,
  All, drop,
}
use pget.Cli.{ExecutionPlan, default_plan, continue_auto}
use pget.Cli.Setting.{ok}
use pget.Cli.Parse.{is_continued, is_background, parse}
use pget.Cli.Spelling.{parse-urls}
use pget.Job.Main.{World, exits, child_args, main, IsOpened, AllSucceed, main-success}
use pget.Http.Sequential.{Reply, reply}
use pget.Job.Sequential.{
  at_path, opened, download_sequential, continued-source, ignored_range-appends,
}
use pget.Job.Naming.{resolve_filename, progress_label, sanitize_display_url}
use pget.Job.Exit.{workers_code, workers_code-success, error_code}

credentials_test : sanitize_display_url (bytes "ftp://me:pw@h/a") ≡ bytes "ftp://h/a"
unfolding sanitize_display_url bytes
credentials_test = refl

-- An `@` in the path is taken for the end of credentials.
at_sign_test :
    resolve_filename none (sanitize_display_url (bytes "http://h/icon@2x.png")) ≡ bytes "2x.png"
unfolding resolve_filename sanitize_display_url bytes
at_sign_test = refl

label_test : progress_label (bytes "http://h/d/a.iso?x=1#top") ≡ bytes "a.iso"
unfolding progress_label bytes
label_test = refl

auth_test : error_code (bytes "range request: unexpected status 403") ≡ 6
unfolding error_code bytes
auth_test = refl

abbrev clean : List (Option (List ℕ))
clean = none ∷ none ∷ []

workers_code-success_example : (workers_code clean 3 3 ≡ 0) ↔ (All (λ o. o ≡ none) clean × (3 ≤ 3))
workers_code-success_example = workers_code-success clean 3 3

-- A server of the source 1, 2, 3, 4, which answers ranges or ignores them.
abbrev ranging : Bool → Option ℕ → Reply
ranging honest none = reply 200 (1 ∷ 2 ∷ 3 ∷ 4 ∷ []) true
ranging true (some n) = reply 206 (drop n (1 ∷ 2 ∷ 3 ∷ 4 ∷ [])) true
ranging false (some n) = reply 200 (1 ∷ 2 ∷ 3 ∷ 4 ∷ []) true

abbrev auto_plan : ExecutionPlan
auto_plan = record default_plan { continue_mode = continue_auto }

continued-source_example :
    download_sequential auto_plan 4 (at_path (some (1 ∷ 2 ∷ []))) true (ranging true)
    ≡ (0, opened (1 ∷ 2 ∷ 3 ∷ 4 ∷ []))
continued-source_example =
    continued-source auto_plan 4 (1 ∷ 2 ∷ 3 ∷ 4 ∷ []) (1 ∷ 2 ∷ []) (ranging true)
      (refl, λ n lt. refl) refl (omega arith)

ignored_range-appends_example :
    download_sequential auto_plan 4 (at_path (some (1 ∷ 2 ∷ []))) true (ranging false)
    ≡ (0, opened (1 ∷ 2 ∷ 1 ∷ 2 ∷ 3 ∷ 4 ∷ []))
ignored_range-appends_example =
    ignored_range-appends auto_plan 4 (1 ∷ 2 ∷ 3 ∷ 4 ∷ []) (1 ∷ 2 ∷ []) (ranging false)
      (unfold is_continued in refl) refl (omega arith) refl

-- The value `-b` of an option is taken for the background flag.
child_args_test :
    child_args (bytes "-b" ∷ bytes "-U" ∷ bytes "-b" ∷ bytes "http://a" ∷ [])
    ≡ bytes "-U" ∷ bytes "http://a" ∷ []
unfolding child_args bytes
child_args_test = refl

abbrev two_urls : List (List ℕ)
two_urls = bytes "http://a" ∷ bytes "http://b" ∷ []

abbrev foreground : World
foreground = record {
  is_child = false;
  executable_found = true;
  child_starts = true;
  creates = true;
  code = λ n url. n;
}

abbrev two_plan : ExecutionPlan
two_plan = record default_plan { urls = two_urls }

abbrev no_file : List ℕ → Option (List ℕ)
no_file path = none

two_parsed : parse (λ text. none) no_file two_urls ≡ ok two_plan
unfolding bytes
two_parsed = parse-urls (λ text. none) no_file two_urls (refl, (refl, tt))

main-success_example :
    (main (λ text. none) no_file foreground two_urls ≡ exits 0)
    ↔ ((two_urls ≢ []) × IsOpened foreground two_plan × AllSucceed foreground 0 two_urls)
unfolding default_plan is_background
main-success_example =
    main-success (λ text. none) no_file foreground two_urls two_plan two_parsed refl
