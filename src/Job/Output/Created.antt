-- ===== src/Job/Output/Created.antt =====
-- What runOneJob finds when Run has created the output of -O before it.
use pget.Base.{
  ℕ, ◌≡◌, inl, inr, refl, sym, subst, Bool, true, false, not, ◌&&◌, List, [], none, some,
  if◌then◌else◌, Bool-cases, same_text, same_text_refl,
}
use pget.Cli.{ExecutionPlan, output_file, output_single, output_stdout}
use pget.Sidecar.Manager.{Manager}
use pget.Job.Exit.{exit_success}
use pget.Job.Naming.{resolve_filename}
use pget.Job.Route.{
  Site, Route, continued, exited, Resume, continues, run_one_job, dest_path, dir_needed, is_present,
}

-- What a job finds of the path that os.Create was called on: its size is what the jobs before it have
-- written, its time that of the last write.
unfoldable pub created_site : Site → List ℕ → ℕ → ℕ → Site
unfolding same_text
created_site site path size now = record site {
  stat = λ other. if same_text path other then some (size, now) else site.stat other;
}

created_stat :
    (site : Site) (path : List ℕ) (size now : ℕ)
    → (created_site site path size now).stat path ≡ some (size, now)
unfolding created_site
created_stat site path size now = rw (same_text_refl path) refl

single_path :
    (plan : ExecutionPlan) (display : List ℕ)
    → plan.output_mode ≡ output_single
    → dest_path plan display ≡ plan.output_path
unfolding dest_path
single_path plan display mode =
    subst
      (λ m.
        elim m [
          | output_stdout ↦ []
          | output_single ↦ plan.output_path
          | output_file ↦ resolve_filename none display
        ]
        ≡ plan.output_path)
      (sym mode) refl

directory-made :
    (plan : ExecutionPlan) (site : Site) (size now : ℕ)
    → site.dir_made plan.output_path ≡ true
    → (dir_needed plan plan.output_path
        && not ((created_site site plan.output_path size now).dir_made plan.output_path))
      ≡ false
unfolding created_site
directory-made plan site size now dir = elim (Bool-cases (dir_needed plan plan.output_path)) [
  | inl e ↦ simp (e, dir) refl
  | inr e ↦ simp e refl
]

-- With -O and --no-clobber the job exits with success before any request, although the file was
-- created by this very run, if its directory can be made: nothing is ever retrieved.
pub no_clobber-exited :
    (plan : ExecutionPlan) (url display : List ℕ) (site : Site) (size now : ℕ)
    → plan.output_mode ≡ output_single
    → plan.spider ≡ false
    → plan.no_clobber ≡ true
    → same_text plan.output_path [] ≡ false
    → site.dir_made plan.output_path ≡ true
    → run_one_job plan url display (created_site site plan.output_path size now)
      ≡ (false, exited exit_success)
no_clobber-exited plan url display site size now mode spider clobber named dir =
    let nonempty : not (same_text plan.output_path []) ≡ true = simp named refl in
    let there : is_present ((created_site site plan.output_path size now).stat plan.output_path)
        ≡ true =
      unfold is_present in rw (created_stat site plan.output_path size now) refl in
    let made = directory-made plan site size now dir in
    unfold run_one_job in
    rw (single_path plan display mode) (simp (spider, clobber, nonempty, there, made) refl)

unfoldable pub appends : Route → Bool
appends (continued url path r) = true
appends _ = false

unfoldable goes_on : Resume → Bool
goes_on continues = true
goes_on _ = false
