-- ===== src/Cli/Validity.antt =====
-- What every plan that comes out of `Parse` satisfies.
use pget.Base.{
  ℕ, subst, ◌≡◌, ◌⊎◌, refl, inl, inr, Bool, true, false, ◌&&◌, List, [], ◌∷◌, Option, none, some,
  bytes, same_text, Bool-cases,
}
use pget.Base.Int64.{lt64}
use pget.Cli.{ExecutionPlan}
use pget.Cli.Setting.{Outcome, ok, fails, exited, Parser}
use pget.Cli.Parse.{
  is_stdout, is_continued, is_background, header_map, check_output, force_single, check_sizes,
  validate, add_file_urls, add_file_content, collect_urls, initial, parse,
}
use pget.Cli.Sound.{Ensures, and_then-Ensures, IsSound}
use pget.Cli.Handlers.{parse_options-Ensures}

anything {ℓ} : {A : Type ℓ} (o : Outcome A) → Ensures (λ a. Unit) o
anything (ok a) = tt
anything (fails e) = tt
anything exited = tt

-- The buffer holds a split, a plan without parallelism has one connection, connections and tries are
-- positive, and the output goes to stdout exactly if it is named `-`, then neither continued nor in
-- the background.
abbrev pub IsValid : ExecutionPlan → Type 0
IsValid plan =
    (lt64 plan.buffer_size plan.split_size ≡ false)
    × ((plan.no_parallel ≡ false) ⊎ (plan.connections ≡ 1))
    × IsSound plan
    × ((is_stdout plan && is_continued plan) ≡ false)
    × ((is_background plan && is_stdout plan) ≡ false)

check_output-Ensures :
    (plan : ExecutionPlan)
    → lt64 plan.buffer_size plan.split_size ≡ false
    → (plan.no_parallel ≡ false) ⊎ (plan.connections ≡ 1)
    → IsSound plan
    → (is_background plan && is_stdout plan) ≡ false
    → Ensures IsValid (check_output plan)
unfolding check_output
check_output-Ensures plan sizes single sound mode =
    elim (Bool-cases (is_stdout plan && is_continued plan)) [
      | inl e ↦ rw e tt
      | inr e ↦ rw e (sizes, single, sound, e, mode)
    ]

force_single-Ensures :
    (single : Bool) (plan : ExecutionPlan)
    → plan.no_parallel ≡ single
    → lt64 plan.buffer_size plan.split_size ≡ false
    → IsSound plan
    → (is_background plan && is_stdout plan) ≡ false
    → Ensures IsValid (check_output (force_single single plan))
unfolding force_single is_stdout is_background
force_single-Ensures true plan e sizes sound mode =
    check_output-Ensures (record plan { connections = 1 }) sizes (inr refl) (refl, sound.1, sound.2)
      mode
force_single-Ensures false plan e sizes sound mode =
    check_output-Ensures plan sizes (inl e) sound mode

check_sizes-Ensures :
    (plan : ExecutionPlan)
    → IsSound plan
    → (is_background plan && is_stdout plan) ≡ false
    → Ensures IsValid (check_sizes plan)
unfolding check_sizes
check_sizes-Ensures plan sound mode = elim (Bool-cases (lt64 plan.buffer_size plan.split_size)) [
  | inl e ↦ rw e tt
  | inr e ↦ rw e (force_single-Ensures plan.no_parallel plan refl e sound mode)
]

validate-Ensures : (p : Parser) → IsSound p.plan → Ensures IsValid (validate p)
unfolding validate is_stdout is_background
validate-Ensures p h = elim (Bool-cases (is_background p.plan && is_stdout p.plan)) [
  | inl e ↦ rw e tt
  | inr e ↦ rw e (
      and_then-Ensures {P = λ entries. Unit} _ (header_map p.headers []) _ (anything _)
        (λ entries tt. check_sizes-Ensures (record p.plan { extra_headers = entries }) h e))
]

add_file_content-Ensures :
    (p : Parser) (path : List ℕ) (content : Option (List ℕ))
    → IsSound p.plan
    → Ensures (λ q. IsSound q.plan) (add_file_content p path content)
unfolding add_file_content is_stdout
add_file_content-Ensures p path none h = tt
add_file_content-Ensures p path (some content) h = h

collect_urls-IsSound :
    (p : Parser) (remaining : List (List ℕ))
    → IsSound p.plan
    → IsSound (collect_urls p remaining).plan
unfolding collect_urls is_stdout
collect_urls-IsSound p remaining h = h

initial-IsSound : IsSound initial.plan
unfolding initial is_stdout bytes same_text
initial-IsSound = (refl, refl, refl)

module _ (parse_seconds : List ℕ → Option ℕ) (read_file : List ℕ → Option (List ℕ)) where
  add_file_urls-Ensures :
      (p : Parser) (path : List ℕ)
      → IsSound p.plan
      → Ensures (λ q. IsSound q.plan) (add_file_urls parse_seconds read_file p path)
  unfolding add_file_urls
  add_file_urls-Ensures p [] h = h
  add_file_urls-Ensures p (c ∷ path) h = add_file_content-Ensures p (c ∷ path) _ h

  parse-Ensures : (args : List (List ℕ)) → Ensures IsValid (parse parse_seconds read_file args)
  unfolding parse
  parse-Ensures args =
      and_then-Ensures _ _ _
        (parse_options-Ensures parse_seconds args initial false initial-IsSound)
        (λ (p, remaining) h.
          and_then-Ensures _ _ _
            (add_file_urls-Ensures (collect_urls p remaining) p.plan.input_file
              (collect_urls-IsSound p remaining h))
            validate-Ensures)

  -- Every plan that Parse returns, whatever the arguments, the input file and the reader of seconds:
  -- the buffer size is at least the split size, connections and tries are positive, --no-parallel
  -- means one connection, the output mode is stdout exactly if the output path is `-`, and stdout is
  -- combined neither with --continue nor with --background.
  pub parse-IsValid :
      (args : List (List ℕ)) (plan : ExecutionPlan)
      → parse parse_seconds read_file args ≡ ok plan
      → IsValid plan
  parse-IsValid args plan e = subst (Ensures IsValid) e (parse-Ensures args)
