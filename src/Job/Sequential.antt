-- ===== src/Job/Sequential.antt =====
-- internal/job/runner.go: downloadSequential. A file is its bytes, `none` where there is none; the size of
-- a file is below 2^63. Whether the file can be opened is an argument.
use pget.Base.{
  ℕ, zero, suc, ◌<◌, ◌≡◌, ◌∙◌, sym, refl, ap, inl, inr, Bool, true, ◌&&◌, List, [], ◌∷◌, ◌++◌,
  Option, none, some, arith, ltb, if◌then◌else◌, length, take, drop, Bool-cases,
}
use pget.Base.Int64.{lt64}
use pget.Cli.{ExecutionPlan}
use pget.Cli.Parse.{is_continued}
use pget.Http.Sequential.{Reply, reply, is_accepted, open_sequential}
use pget.Job.Exit.{exit_success, exit_io_error, exit_network_fail}

-- Where the bytes go: an output that is open already, a path, or nowhere.
pub data Target : Type 0 where
  opened : List ℕ → Target
  at_path : Option (List ℕ) → Target
  nowhere : Target

unfoldable pub start_offset : ExecutionPlan → ℕ → Option (List ℕ) → ℕ
unfolding is_continued
start_offset plan size none = 0
start_offset plan size (some file) = if is_continued plan && lt64 0 size then length file else 0

-- O_APPEND or O_TRUNC.
unfoldable pub opened_at : ℕ → Option (List ℕ) → List ℕ
opened_at offset none = []
opened_at offset (some file) = if ltb 0 offset then file else []

-- The exit code and the target's bytes, after io.Copy.
unfoldable pub copied : List ℕ → Option (List ℕ × Bool) → ℕ × Target
copied before none = (exit_network_fail, opened before)
copied before (some (body, whole)) =
    ((if whole then exit_success else exit_network_fail), opened (before ++ body))

unfoldable pub download_to : Option (List ℕ) → ℕ → Bool → (Option ℕ → Reply) → ℕ × Target
unfolding opened_at copied
download_to file offset opens server =
    if opens
    then copied (opened_at offset file) (open_sequential server offset)
    else (exit_io_error, at_path file)

unfoldable pub download_sequential :
    ExecutionPlan → ℕ → Target → Bool → (Option ℕ → Reply) → ℕ × Target
unfolding download_to start_offset
download_sequential plan size nowhere opens server = (exit_io_error, nowhere)
download_sequential plan size (opened before) opens server =
    copied before (open_sequential server 0)
download_sequential plan size (at_path file) opens server =
    download_to file (start_offset plan size file) opens server

take-drop : (n : ℕ) (xs : List ℕ) → take n xs ++ drop n xs ≡ xs
take-drop zero xs = refl
take-drop (suc n) [] = refl
take-drop (suc n) (x ∷ xs) = ap (x ∷◌) (take-drop n xs)

-- Requests from an offset inside the source are answered with the rest of it.
abbrev pub Honours : List ℕ → (Option ℕ → Reply) → Type 0
Honours source server =
    (server none ≡ reply 200 source true)
    × ((n : ℕ) → n < length source → server (some n) ≡ reply 206 (drop n source) true)

module _ (plan : ExecutionPlan) (size : ℕ) (source file : List ℕ) (server : Option ℕ → Reply) where
  from_start :
      server none ≡ reply 200 source true
      → download_to (some file) 0 true server ≡ (exit_success, opened source)
  unfolding download_to open_sequential
  from_start plain = simp plain refl

  from_end :
      (status : ℕ) (body : List ℕ)
      → ltb 0 (length file) ≡ true
      → is_accepted status ≡ true
      → server (some (length file)) ≡ reply status body true
      → download_to (some file) (length file) true server ≡ (exit_success, opened (file ++ body))
  unfolding download_to open_sequential
  from_end status body old ok answer = simp (old, answer, ok) refl

  -- When the file is a proper front part of the source and the server answers ranges, a sequential
  -- download that can open the file succeeds, with or without --continue, and leaves the file with
  -- exactly the bytes of the source.
  pub continued-source :
      Honours source server
      → take (length file) source ≡ file
      → length file < length source
      → download_sequential plan size (at_path (some file)) true server
        ≡ (exit_success, opened source)
  continued-source (plain, ranged) front proper =
      elim (Bool-cases (is_continued plan && lt64 0 size)) [
        | inr fresh ↦ unfold download_sequential in rw fresh (from_start plain)
        | inl again ↦ elim (Bool-cases (ltb 0 (length file))) [
          | inl old ↦
              let whole : file ++ drop (length file) source ≡ source =
                ap (λ t. t ++ drop (length file) source) (sym front)
                ∙ take-drop (length file) source in
              unfold download_sequential in
              rw again (
                from_end 206 (drop (length file) source) old (unfold is_accepted in refl)
                  (ranged (length file) proper)
                ∙ ap (λ t. (exit_success, opened t)) whole)
          | inr empty ↦
              let nothing : length file ≡ 0 = ground arith in
              unfold download_sequential in rw (again, nothing) (from_start plain)
        ]
      ]

  -- The rest of the source from the file's end on stands behind the file, whatever the file holds.
  pub ranged-appends :
      is_continued plan ≡ true
      → lt64 0 size ≡ true
      → 0 < length file
      → server (some (length file)) ≡ reply 206 (drop (length file) source) true
      → download_sequential plan size (at_path (some file)) true server
        ≡ (exit_success, opened (file ++ drop (length file) source))
  ranged-appends auto known old answer =
      unfold download_sequential in
      rw (auto, known)
        (from_end 206 (drop (length file) source) (ground arith) (unfold is_accepted in refl)
          answer)

  -- When the server ignores ranges and sends the whole source, a download that continues a file with at
  -- least one byte is reported as a success, though the source now stands behind the old bytes.
  pub ignored_range-appends :
      is_continued plan ≡ true
      → lt64 0 size ≡ true
      → 0 < length file
      → server (some (length file)) ≡ reply 200 source true
      → download_sequential plan size (at_path (some file)) true server
        ≡ (exit_success, opened (file ++ source))
  ignored_range-appends auto known old answer =
      unfold download_sequential in
      rw (auto, known) (from_end 200 source (ground arith) (unfold is_accepted in refl) answer)
