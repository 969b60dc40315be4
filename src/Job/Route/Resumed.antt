-- ===== src/Job/Route/Resumed.antt =====
-- What a parallel download of runOneJob may rely on.
use pget.Base.{
  ℕ, ◌≡◌, refl, ap, subst, inl, inr, Bool, true, false, not, ◌&&◌, List, [], ◌∷◌, Option, none,
  some, arith, ◌==◌, if◌then◌else◌, same_text, Bool-cases, ==_iff,
}
use pget.Cli.{ExecutionPlan}
use pget.Cli.Parse.{is_continued}
use pget.Http.Probe.{ProbeResult}
use pget.Sidecar.Manager.{
  Item, State, Stored, absent, unreadable, garbage, stored, Manager, current_version, new_manager,
  exists, loaded,
}
use pget.Job.Exit.{exit_success, exit_io_error, exit_network_fail}
use pget.Job.Naming.{resolve_filename}
use pget.Job.Route.{
  Site, Route, exited, panics, parallel_file, parallel_stream, sequential, continued, Resume, fresh,
  corrupt, stale, broken, continues, resumed, resume_items, resume_loaded, is_nonempty, resume,
  use_parallel, is_stream, is_file_mode, retrieve, resumed_route, effective_url, probed_route,
  route_to, run_one_job, dest_path, spider_code,
}

retrieve-parallel :
    (plan : ExecutionPlan) (u u' p p' : List ℕ) (r r' : ProbeResult) (d d' : ℕ → Bool)
    → retrieve plan u p r d ≡ parallel_file u' p' r' d'
    → (use_parallel plan r ≡ true) × (p ≡ p') × (r ≡ r') × (d ≡ d')
retrieve-parallel plan u u' p p' r r' d d' e = elim (Bool-cases (use_parallel plan r)) [
  | inl par ↦ elim (Bool-cases (is_stream plan.output_mode)) [
    | inl str ↦ absurd (
        unfold retrieve in
        (let q : parallel_stream u r ≡ parallel_file u' p' r' d' = rw (par, str) at e in cc))
    | inr str ↦
        unfold retrieve in
        (let q : parallel_file u p r d ≡ parallel_file u' p' r' d' = rw (par, str) at e in
          (par, cc, cc, cc))
  ]
  | inr seq ↦ absurd (
      unfold retrieve in (let q : sequential u p r ≡ parallel_file u' p' r' d' = rw seq at e in cc))
]

retrieve-unmarked :
    (plan : ExecutionPlan) (u u' p p' : List ℕ) (r r' : ProbeResult) (d' : ℕ → Bool) (j : ℕ)
    → retrieve plan u p r (λ k. false) ≡ parallel_file u' p' r' d'
    → d' j ≡ true
    → ⊥
retrieve-unmarked plan u u' p p' r r' d' j e m =
    let (_, _, _, none_done) = retrieve-parallel plan u u' p p' r r' (λ k. false) d' e in
    absurd (let q : false ≡ d' j = ap (λ f. f j) none_done in ground (arith, q, m))

-- A test whose first answer is a panic was passed.
unpanicked :
    (test : Bool) (rest : Bool × Route) (b : Bool) (u p : List ℕ) (r : ProbeResult) (d : ℕ → Bool)
    → (if test then (false, panics) else rest) ≡ (b, parallel_file u p r d)
    → rest ≡ (b, parallel_file u p r d)
unpanicked true rest b u p r d e =
    absurd (let q : panics ≡ parallel_file u p r d = ap (λ t. t.1) e in cc)
unpanicked false rest b u p r d e = e

-- A download whose marks name a chunk is a resumed one.
resumed_route-marked :
    (plan : ExecutionPlan) (u u' p p' : List ℕ) (r r' : ProbeResult) (d' : ℕ → Bool) (b : Bool)
    (o : Resume) (j : ℕ)
    → resumed_route plan u p r o ≡ (b, parallel_file u' p' r' d')
    → d' j ≡ true
    → (any : Bool) × (use_parallel plan r ≡ true) × (p ≡ p') × (r ≡ r') × (o ≡ resumed any d')
unfolding resumed_route
resumed_route-marked plan u u' p p' r r' d' b fresh j e m =
    absurd (retrieve-unmarked plan u u' p p' r r' d' j (ap (λ t. t.1) e) m)
resumed_route-marked plan u u' p p' r r' d' b corrupt j e m =
    absurd (retrieve-unmarked plan u u' p p' r r' d' j (ap (λ t. t.1) e) m)
resumed_route-marked plan u u' p p' r r' d' b stale j e m =
    absurd (retrieve-unmarked plan u u' p p' r r' d' j (ap (λ t. t.1) e) m)
resumed_route-marked plan u u' p p' r r' d' b broken j e m =
    absurd (let q : panics ≡ parallel_file u' p' r' d' = ap (λ t. t.1) e in cc)
resumed_route-marked plan u u' p p' r r' d' b continues j e m =
    absurd (let q : continued u p r ≡ parallel_file u' p' r' d' = ap (λ t. t.1) e in cc)
resumed_route-marked plan u u' p p' r r' d' b (resumed any d) j e m =
    let test = any && not plan.quiet && plan.split_size == 0 in
    let e' = unpanicked test (false, retrieve plan u p r d) b u' p' r' d' e in
    let (par, path, result, same) = retrieve-parallel plan u u' p p' r r' d d' (ap (λ t. t.1) e') in
    (any, par, path, result, ap (resumed any) same)

resume_items-resumed :
    (size : ℕ) (items : List Item) (any : Bool) (d : ℕ → Bool)
    → resume_items size items ≡ resumed any d
    → (item : Item) × (rest : List Item) × (items ≡ item ∷ rest) × (item.length ≡ size)
resume_items-resumed size [] any d e =
    absurd (let q : broken ≡ resumed any d = unfold resume_items in e in cc)
resume_items-resumed size (item ∷ rest) any d e = elim (Bool-cases (item.length == size)) [
  | inl same ↦ (item, rest, refl, (==_iff item.length size).0 same)
  | inr other ↦
      absurd (let q : stale ≡ resumed any d = unfold resume_items in (rw other at e) in cc)
]

resume_loaded-resumed :
    (size : ℕ) (m : Manager) (file : Stored) (any : Bool) (d : ℕ → Bool)
    → resume_loaded size (loaded m file) ≡ resumed any d
    → (s : State) × (item : Item) × (rest : List Item) × (file ≡ stored s)
      × (s.version ≡ current_version)
      × (s.items ≡ item ∷ rest)
      × (item.length ≡ size)
unfolding loaded resume_loaded
resume_loaded-resumed size m absent any d e = absurd (let q : corrupt ≡ resumed any d = e in cc)
resume_loaded-resumed size m unreadable any d e = absurd (let q : corrupt ≡ resumed any d = e in cc)
resume_loaded-resumed size m garbage any d e = absurd (let q : corrupt ≡ resumed any d = e in cc)
resume_loaded-resumed size m (stored s) any d e = elim (Bool-cases (s.version == current_version)) [
  | inl known ↦
      let (item, rest, items, len) = resume_items-resumed size s.items any d (rw known at e) in
      (s, item, rest, refl, (==_iff s.version current_version).0 known, items, len)
  | inr other ↦ absurd (let q : corrupt ≡ resumed any d = rw other at e in cc)
]

resume-resumed :
    (plan : ExecutionPlan) (size : ℕ) (path : List ℕ) (site : Site) (any : Bool) (d : ℕ → Bool)
    → resume plan size path site ≡ resumed any d
    → resume_loaded size (loaded (new_manager path) (site.sidecar path)) ≡ resumed any d
resume-resumed plan size path site any d e = elim (Bool-cases (same_text path [])) [
  | inl nowhere ↦ absurd (let q : fresh ≡ resumed any d = unfold resume in (rw nowhere at e) in cc)
  | inr named ↦ elim (Bool-cases (exists (site.sidecar path))) [
    | inl found ↦ unfold resume in rw (named, found) at e
    | inr missing ↦ elim (Bool-cases (is_continued plan && is_nonempty (site.stat path))) [
      | inl again ↦ absurd (
          let q : continues ≡ resumed any d = unfold resume in (rw (named, missing, again) at e) in
          cc)
      | inr anew ↦
          absurd (
            let q : fresh ≡ resumed any d = unfold resume in (rw (named, missing, anew) at e) in cc)
    ]
  ]
]

probed_route-marked :
    (plan : ExecutionPlan) (url display path u p : List ℕ) (site : Site) (o : Option ProbeResult)
    (b : Bool) (r : ProbeResult) (d : ℕ → Bool) (j : ℕ)
    → probed_route plan url display path site o ≡ (b, parallel_file u p r d)
    → d j ≡ true
    → (any : Bool) × (o ≡ some r)
      × (use_parallel plan r ≡ true)
      × (resume plan r.size p site ≡ resumed any d)
unfolding probed_route
probed_route-marked plan url display path u p site none b r d j e m =
    absurd (let q : exited exit_network_fail ≡ parallel_file u p r d = ap (λ t. t.1) e in cc)
probed_route-marked plan url display path u p site (some x) b r d j e m =
    let final_path =
      if is_file_mode plan.output_mode then resolve_filename (some x.filename) display else path in
    let (any, par, at, result, same) =
      resumed_route-marked plan (effective_url url x) u final_path p x r d b
        (resume plan x.size final_path site) j e m in
    (
      any,
      ap some result,
      subst (λ y. use_parallel plan y ≡ true) result par,
      subst (λ y. resume plan y.size p site ≡ resumed any d) result
          (subst (λ y. resume plan x.size y site ≡ resumed any d) at same),
    )

-- A test whose first answer is an exit was passed.
passed :
    (test : Bool) (code : ℕ) (rest : Bool × Route) (b : Bool) (u p : List ℕ) (r : ProbeResult)
    (d : ℕ → Bool)
    → (if test then (false, exited code) else rest) ≡ (b, parallel_file u p r d)
    → rest ≡ (b, parallel_file u p r d)
passed true code rest b u p r d e =
    absurd (let q : exited code ≡ parallel_file u p r d = ap (λ t. t.1) e in cc)
passed false code rest b u p r d e = e

run_one_job-probed :
    (plan : ExecutionPlan) (url display u p : List ℕ) (site : Site) (b : Bool) (r : ProbeResult)
    (d : ℕ → Bool)
    → run_one_job plan url display site ≡ (b, parallel_file u p r d)
    → probed_route plan url display (dest_path plan display) site site.probed
      ≡ (b, parallel_file u p r d)
unfolding run_one_job route_to
run_one_job-probed plan url display u p site b r d e = passed _ exit_success _ b u p r d (
    passed _ exit_success _ b u p r d (
      passed _ exit_io_error _ b u p r d
        (passed plan.spider (spider_code site.probed) _ b u p r d e)))

-- When runOneJob starts a parallel download into a file whose marks name a chunk, then ranges work,
-- more than one connection is planned, the size is positive, and a sidecar of the current version
-- stands at that file whose first item has the size that the server states.
pub marked_download-IsResumed :
    (plan : ExecutionPlan) (url display u p : List ℕ) (site : Site) (b : Bool) (r : ProbeResult)
    (d : ℕ → Bool) (j : ℕ)
    → run_one_job plan url display site ≡ (b, parallel_file u p r d)
    → d j ≡ true
    → (site.probed ≡ some r)
      × (use_parallel plan r ≡ true)
      × ((s : State) × (item : Item) × (rest : List Item) × (site.sidecar p ≡ stored s)
          × (s.version ≡ current_version)
          × (s.items ≡ item ∷ rest)
          × (item.length ≡ r.size))
marked_download-IsResumed plan url display u p site b r d j e m =
    let (any, at, par, same) =
      probed_route-marked plan url display (dest_path plan display) u p site site.probed b r d j
        (run_one_job-probed plan url display u p site b r d e) m in
    (
      at,
      par,
      resume_loaded-resumed r.size (new_manager p) (site.sidecar p) any d
          (resume-resumed plan r.size p site any d same),
    )
