-- ===== src/Job/Output/Concatenated.antt =====
-- The file that one output for several URLs holds in the end.
use pget.Base.{
  ℕ, zero, suc, ◌+◌, ◌%◌, ◌<◌, ◌≡◌, ◌∙◌, sym, refl, ap, inl, inr, true, false, List, [], ◌∷◌, ◌++◌,
  map, some, arith, length, length-append, drop, concat, Bool-cases,
}
use mathlib.Core.List.{append-nil, append_assoc}
use pget.Base.Int64.{modulus, add64, lt64, half}
use pget.Sink.File.{write_at}
use pget.Job.Exit.{exit_success, exit_network_fail}
use pget.Job.Output.{
  Output, Job, sequential, parallel, write_handle, advance, run_job, run_each, run_single, create,
}

-- A sequential download of the whole of a resource whose size is known.
unfoldable pub in_sequence : List ℕ → Job
in_sequence source = sequential (length source) (some (source, true))

-- A parallel download that succeeds, and writes the bytes of the resource from the base offset on.
unfoldable pub in_parallel : List ℕ → Job
in_parallel source =
    parallel (length source) (λ file base. (exit_success, write_at file base source))

pub write_at_end : (file body : List ℕ) → write_at file (length file) body ≡ file ++ body
unfolding write_at
write_at_end [] [] = refl
write_at_end [] (d ∷ body) = ap (d ∷◌) (write_at_end [] body)
write_at_end (b ∷ file) [] = ap (b ∷◌) (sym (append-nil file))
write_at_end (b ∷ file) (d ∷ body) = ap (b ∷◌) (write_at_end file (d ∷ body))

-- The base offset stands at the end of the file, the handle at `p`.
abbrev pub standing : ℕ → List ℕ → Output
standing p file = record { file = file; position = p; base = length file }

-- The same with the handle at the end.
abbrev based : List ℕ → ℕ → Output
based file n = record { file = file; position = length file; base = n }

advanced :
    (p : ℕ) (file source : List ℕ)
    → length file + length source < half
    → advance (record (standing p file) { file = file ++ source }) (length source)
      ≡ standing p (file ++ source)
unfolding advance
advanced p file source h =
    let sum : add64 (length file) (length source) ≡ length (file ++ source) =
      omega (arith, length-append file source) in
    ap (λ n. record { file = file ++ source; position = p; base = n }) sum

run_job-in_parallel :
    (p : ℕ) (file source : List ℕ)
    → length file + length source < half
    → run_job (standing p file) (in_parallel source) ≡ (exit_success, standing p (file ++ source))
unfolding run_job in_parallel
run_job-in_parallel p file source h =
    rw (write_at_end file source) (ap (λ o. (exit_success, o)) (advanced p file source h))

run_job-in_sequence :
    (file source : List ℕ)
    → length file + length source < half
    → run_job (standing (length file) file) (in_sequence source)
      ≡ (exit_success, standing (length (file ++ source)) (file ++ source))
unfolding run_job in_sequence write_handle
run_job-in_sequence file source h =
    let sum : length file + length source ≡ length (file ++ source) =
      sym (length-append file source) in
    rw (write_at_end file source, sum)
      (elim (Bool-cases (lt64 0 (length source))) [
        | inl e ↦
            let small : length (file ++ source) % modulus ≡ length (file ++ source) =
              omega (arith, length-append file source) in
            rw e (ap (λ n. (exit_success, based (file ++ source) n)) small)
        | inr e ↦
            let none_added : length file ≡ length (file ++ source) =
              ground (arith, length-append file source) in
            rw e (ap (λ n. (exit_success, based (file ++ source) n)) none_added)
      ])

pub run_each-in_sequence :
    (file : List ℕ) (sources : List (List ℕ)) (jobs : List Job)
    → length file + length (concat sources) < half
    → run_each (standing (length file) file) (map in_sequence sources ++ jobs)
      ≡ run_each (standing (length (file ++ concat sources)) (file ++ concat sources)) jobs
unfolding run_each
run_each-in_sequence file [] jobs h = rw (append-nil file) refl
run_each-in_sequence file (s ∷ sources) jobs h =
    let room = length-append s (concat sources) in
    let both = length-append file s in
    rw (run_job-in_sequence file s (omega arith), ← append_assoc file s (concat sources))
      (run_each-in_sequence (file ++ s) sources jobs (omega arith))

-- A sequential download of which only a part can be read.
unfoldable pub broken_off : ℕ → List ℕ → Job
broken_off size body = sequential size (some (body, false))

run_each-broken_off :
    (file : List ℕ) (size : ℕ) (body : List ℕ) (jobs : List Job)
    → run_each (standing (length file) file) (broken_off size body ∷ jobs) ≡ (
      exit_network_fail,
      record { file = file ++ body; position = length file + length body; base = length file },
    )
unfolding run_each broken_off run_job write_handle
run_each-broken_off file size body jobs = rw (write_at_end file body) refl

all_whole :
    (old : List ℕ) (sources : List (List ℕ))
    → length (concat sources) < half
    → run_single true old (map in_sequence sources) ≡ (exit_success, concat sources)
unfolding run_single create
all_whole old sources h =
    let run = run_each-in_sequence [] sources [] (omega (arith, h)) in
    let listed = append-nil (map in_sequence sources) in
    ap (λ o. (o.0, o.1.file)) (rw listed at run ∙ (unfold run_each in refl))

-- With -O, sequential downloads of resources whose sizes are known, all of which succeed and none of
-- which is continued, leave in the file exactly their bytes one after the other, whatever the file held
-- before, and the run exits with success. When another one behind them breaks off, the part that
-- was read follows the others, the run exits with a network failure, and no later job writes
-- anything. The total is in the int64 range.
pub run_single-concat :
    (old : List ℕ) (sources : List (List ℕ)) (size : ℕ) (body : List ℕ) (jobs : List Job)
    → length (concat sources) + length body < half
    → (run_single true old (map in_sequence sources) ≡ (exit_success, concat sources))
      × (run_single true old (map in_sequence sources ++ broken_off size body ∷ jobs)
          ≡ (exit_network_fail, concat sources ++ body))
unfolding run_single create
run_single-concat old sources size body jobs h = (
  all_whole old sources (omega (arith, h)),
  rw
      (
        run_each-in_sequence [] sources (broken_off size body ∷ jobs) (omega (arith, h)),
        run_each-broken_off (concat sources) size body jobs,
      )
      refl,
)

drop-nil : (n : ℕ) → [] ≡ drop {A = ℕ} n []
drop-nil zero = refl
drop-nil (suc n) = refl

write_at_front : (file body : List ℕ) → write_at file 0 body ≡ body ++ drop (length body) file
unfolding write_at
write_at_front file [] = refl
write_at_front [] (d ∷ body) =
    ap (d ∷◌) (write_at_front [] body ∙ ap (body ++◌) (sym (drop-nil (length body))))
write_at_front (b ∷ file) (d ∷ body) = ap (d ∷◌) (write_at_front file body)

sequential_behind :
    (a b : List ℕ)
    → ((run_job (standing 0 a) (in_sequence b)).0 ≡ exit_success)
      × ((run_job (standing 0 a) (in_sequence b)).1.file ≡ b ++ drop (length b) a)
unfolding run_job in_sequence write_handle advance
sequential_behind a b = elim (Bool-cases (lt64 0 (length b))) [
  | inl e ↦ rw e (refl, write_at_front a b)
  | inr e ↦ rw e (refl, write_at_front a b)
]

-- With -O, a parallel download of `a` followed by a sequential one of `b`, both successful, exits with
-- success, though the bytes of `b` stand over the first bytes of `a`: only what of `a` is longer than
-- `b` is left behind them.
pub run_single-overwrites :
    (old a b : List ℕ)
    → length a + length b < half
    → run_single true old (in_parallel a ∷ in_sequence b ∷ [])
      ≡ (exit_success, b ++ drop (length b) a)
unfolding run_single create run_each
run_single-overwrites old a b h =
    rw (run_job-in_parallel 0 [] a (omega arith))
      (let (code, file) = sequential_behind a b in simp code (ap (λ f. (exit_success, f)) file))
