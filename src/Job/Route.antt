-- ===== src/Job/Route.antt =====
-- internal/job/runner.go: what runOneJob and checkTimestamp decide before a download begins. `Site` is what
-- the network and the file system answer; a path is its bytes, [] for none.
pub mod Resumed
mod Tests
use pget.Base.{
  ℕ, zero, suc, ◌<◌, ◌≡◌, ◌∙◌, sym, refl, ap, subst, ◌⊎◌, inl, inr, Bool, true, false, not, ◌&&◌,
  ◌||◌, List, [], ◌∷◌, Option, none, some, arith, ◌==◌, ltb, leb, if◌then◌else◌, bytes, same_text,
  get_elem?, Bool-cases, Option-cases,
}
use pget.Base.Int64.{lt64}
use pget.Chunk.{quotient_up}
use pget.Cli.{
  ExecutionPlan, OutputMode, output_file, output_single, output_stdout, TimestampMode,
  timestamp_none, timestamp_check,
}
use pget.Cli.Parse.{is_continued}
use pget.Http.Probe.{ProbeResult}
use pget.Sidecar.Bitmap.{decode_bitmap}
use pget.Sidecar.Manager.{
  Item, State, Stored, absent, stored, Manager, SidecarError, new_manager, exists, loaded,
}
use pget.Job.Exit.{exit_success, exit_io_error, exit_network_fail}
use pget.Job.Naming.{resolve_filename}

-- `looked_up` answers the probe of checkTimestamp, `probed` the other one; `stat` is size and
-- modification time; `dir_made` is the success of ensureDir.
pub record Site : Type 0 where
  pub looked_up : Option ProbeResult
  pub probed : Option ProbeResult
  pub dir_made : List ℕ → Bool
  pub stat : List ℕ → Option (ℕ × ℕ)
  pub sidecar : List ℕ → Stored

-- `continued` appends to the local file, also where an output is open.
pub data Route : Type 0 where
  exited : ℕ → Route
  panics : Route
  parallel_file : List ℕ → List ℕ → ProbeResult → (ℕ → Bool) → Route
  parallel_stream : List ℕ → ProbeResult → Route
  sequential continued : List ℕ → List ℕ → ProbeResult → Route

-- What is found of an earlier run; `corrupt` and `stale` sidecars are removed. `resumed` has whether
-- any chunk is marked, and the marks.
pub data Resume : Type 0 where
  fresh corrupt stale broken continues : Resume
  resumed : Bool → (ℕ → Bool) → Resume

unfoldable pub is_present : Option (ℕ × ℕ) → Bool
is_present none = false
is_present (some s) = true

unfoldable pub spider_code : Option ProbeResult → ℕ
spider_code none = exit_network_fail
spider_code (some r) = exit_success

unfoldable pub is_up_to_date : Option ℕ → ℕ → ℕ × ℕ → Bool
is_up_to_date none size (local_size, local_mtime) = false
is_up_to_date (some mod_time) size (local_size, local_mtime) =
    leb mod_time local_mtime && size == local_size

-- Whether checkTimestamp skips the download.
unfoldable pub check_timestamp : Option ProbeResult → Option (ℕ × ℕ) → Bool
unfolding is_up_to_date
check_timestamp none file = false
check_timestamp (some r) none = false
check_timestamp (some r) (some file) = is_up_to_date r.mod_time r.size file

unfoldable pub dest_path : ExecutionPlan → List ℕ → List ℕ
unfolding resolve_filename
dest_path plan display = elim plan.output_mode [
  | output_stdout ↦ []
  | output_single ↦ plan.output_path
  | output_file ↦ resolve_filename none display
]

-- The error of a bitmap that cannot be decoded is dropped.
unfoldable pub is_marked : Option (List Bool) → ℕ → Bool
is_marked none j = false
is_marked (some bits) j = elim (get_elem? bits j) [ none ↦ false | some done ↦ done ]

unfoldable pub or_marks : (ℕ → Bool) → Option (ℕ → Bool) → Option (ℕ → Bool)
or_marks done none = none
or_marks done (some rest) = some (λ j. done j || rest j)

unfoldable pub item_marks : Item → Option ℕ → Option (ℕ → Bool) → Option (ℕ → Bool)
unfolding or_marks is_marked
item_marks item none rest = none
item_marks item (some count) rest =
    or_marks (is_marked (decode_bitmap item.completed_bitmap count)) rest

-- The chunks that the items name; `none` is the panic of a division by a zero split size.
unfoldable pub completed_chunks : List Item → Option (ℕ → Bool)
unfolding item_marks
completed_chunks [] = some (λ j. false)
completed_chunks (item ∷ items) =
    item_marks item (quotient_up item.split_size item.length) (completed_chunks items)

unfoldable pub any_bit : Option (List Bool) → Bool
any_bit none = false
any_bit (some []) = false
any_bit (some (done ∷ bits)) = done || any_bit (some bits)

unfoldable pub any_in : Item → Option ℕ → Bool
unfolding any_bit
any_in item none = false
any_in item (some count) = any_bit (decode_bitmap item.completed_bitmap count)

-- Whether the set of completed chunks has an element.
unfoldable pub any_marked : List Item → Bool
unfolding any_in
any_marked [] = false
any_marked (item ∷ items) =
    any_in item (quotient_up item.split_size item.length) || any_marked items

unfoldable pub resume_marks : Bool → Option (ℕ → Bool) → Resume
resume_marks any none = broken
resume_marks any (some done) = resumed any done

-- `state.Items[0]` panics when there is no item.
unfoldable pub resume_items : ℕ → List Item → Resume
unfolding resume_marks completed_chunks any_marked
resume_items size [] = broken
resume_items size (item ∷ items) =
    if item.length == size
    then resume_marks (any_marked (item ∷ items)) (completed_chunks (item ∷ items))
    else stale

unfoldable pub resume_loaded : ℕ → Manager × Option SidecarError → Resume
unfolding resume_items
resume_loaded size (m, some e) = corrupt
resume_loaded size (m, none) = elim m.state [ none ↦ broken | some s ↦ resume_items size s.items ]

unfoldable pub is_nonempty : Option (ℕ × ℕ) → Bool
is_nonempty none = false
is_nonempty (some (size, mtime)) = lt64 0 size

unfoldable pub resume : ExecutionPlan → ℕ → List ℕ → Site → Resume
unfolding resume_loaded is_nonempty loaded same_text
resume plan size path site =
    if same_text path []
    then fresh
    else if exists (site.sidecar path)
    then resume_loaded size (loaded (new_manager path) (site.sidecar path))
    else if is_continued plan && is_nonempty (site.stat path)
    then continues
    else fresh

unfoldable pub use_parallel : ExecutionPlan → ProbeResult → Bool
use_parallel plan r =
    r.range_capable && not plan.no_parallel && lt64 1 plan.connections && lt64 0 r.size

abbrev pub is_stream : OutputMode → Bool
is_stream output_stdout = true
is_stream _ = false

abbrev pub is_file_mode : OutputMode → Bool
is_file_mode output_file = true
is_file_mode _ = false

unfoldable pub retrieve : ExecutionPlan → List ℕ → List ℕ → ProbeResult → (ℕ → Bool) → Route
unfolding use_parallel
retrieve plan url path r done =
    if use_parallel plan r && not (is_stream plan.output_mode)
    then parallel_file url path r done
    else if use_parallel plan r && is_stream plan.output_mode
    then parallel_stream url r
    else sequential url path r

-- With whether a sidecar is removed. The message about marked chunks divides by the split size.
unfoldable pub resumed_route : ExecutionPlan → List ℕ → List ℕ → ProbeResult → Resume → Bool × Route
unfolding retrieve
resumed_route plan url path r fresh = (false, retrieve plan url path r (λ j. false))
resumed_route plan url path r corrupt = (true, retrieve plan url path r (λ j. false))
resumed_route plan url path r stale = (true, retrieve plan url path r (λ j. false))
resumed_route plan url path r broken = (false, panics)
resumed_route plan url path r continues = (false, continued url path r)
resumed_route plan url path r (resumed any done) =
    if any && not plan.quiet && plan.split_size == 0
    then (false, panics)
    else (false, retrieve plan url path r done)

unfoldable pub effective_url : List ℕ → ProbeResult → List ℕ
unfolding same_text
effective_url url r =
    if not (same_text r.final_url []) && not (same_text r.final_url url) then r.final_url else url

unfoldable pub probed_route :
    ExecutionPlan → List ℕ → List ℕ → List ℕ → Site → Option ProbeResult → Bool × Route
unfolding resumed_route resume effective_url resolve_filename
probed_route plan url display path site none = (false, exited exit_network_fail)
probed_route plan url display path site (some r) =
    let final_path =
      if is_file_mode plan.output_mode then resolve_filename (some r.filename) display else path in
    resumed_route plan (effective_url url r) final_path r (resume plan r.size final_path site)

abbrev pub is_checked : TimestampMode → Bool
is_checked timestamp_check = true
is_checked timestamp_none = false

-- The path `-` and the other modes need no directory.
unfoldable pub dir_needed : ExecutionPlan → List ℕ → Bool
unfolding same_text bytes
dir_needed plan path = elim plan.output_mode [
  | output_single ↦ not (same_text path (bytes "-"))
  | _ ↦ false
]

unfoldable pub route_to : ExecutionPlan → List ℕ → List ℕ → Site → List ℕ → Bool × Route
unfolding probed_route is_present check_timestamp dir_needed same_text
route_to plan url display site path =
    if dir_needed plan path && not (site.dir_made path)
    then (false, exited exit_io_error)
    else if plan.no_clobber && not (same_text path []) && is_present (site.stat path)
    then (false, exited exit_success)
    else if is_checked plan.timestamp_mode
        && not (same_text path [])
        && check_timestamp site.looked_up (site.stat path)
    then (false, exited exit_success)
    else probed_route plan url display path site site.probed

unfoldable pub run_one_job : ExecutionPlan → List ℕ → List ℕ → Site → Bool × Route
unfolding route_to spider_code dest_path
run_one_job plan url display site =
    if plan.spider
    then (false, exited (spider_code site.probed))
    else route_to plan url display site (dest_path plan display)
