-- ===== src/Progress.antt =====
-- internal/progress/progress.go: who is told what, how often, and the layout of the bar's line. Sizes,
-- speeds and the ratio are float64 there: their texts, and the number of filled cells, are arguments.
-- The clock does not run backwards.
pub mod Layout
mod Tests
use pget.Base.{
  ℕ, zero, suc, ◌+◌, ◌-◌, ◌*◌, ◌/◌, ◌%◌, ◌^◌, Bool, true, false, not, ◌&&◌, ◌||◌, List, [], ◌∷◌,
  ◌++◌, Option, none, some, ◌==◌, ltb, leb, if◌then◌else◌, length, take, replicate, bytes,
}
use pget.Base.Decimal.{decimal}
use pget.Base.Int64.{add64, sub64, lt64, le64}

abbrev ellipsis : List ℕ
ellipsis = 226 ∷ 128 ∷ 166 ∷ []

-- `max_len` is an int.
unfoldable pub short_label : List ℕ → ℕ → List ℕ
short_label label max_len =
    if le64 max_len 0
    then []
    else if le64 (length label) max_len
    then label
    else if le64 max_len 1
    then ellipsis
    else take (max_len - 1) label ++ ellipsis

unfoldable pub spaces : ℕ → List ℕ
spaces n = if le64 n 0 then [] else replicate n b' '

pub record Reporter : Type 0 where
  pub quiet : Bool
  pub no_verbose : Bool
  pub is_tty : Bool

unfoldable pub new_reporter : Bool → Bool → Bool → Reporter
new_reporter quiet no_verbose is_tty = record {
  quiet = quiet;
  no_verbose = no_verbose;
  is_tty = is_tty;
}

-- Whether Info and Verbose print; Error always does.
unfoldable pub shows_info : Reporter → Bool
shows_info r = not (r.quiet || r.no_verbose)

unfoldable pub shows_verbose : Reporter → Bool
shows_verbose r = not r.quiet

pub record ProgressBar : Type 0 where
  pub reporter : Reporter
  pub total : ℕ
  pub current : ℕ
  pub last_print : ℕ
  pub last_non_tty_print : ℕ

unfoldable pub new_progress_bar : Reporter → ℕ → ProgressBar
new_progress_bar reporter total = record {
  reporter = reporter;
  total = total;
  current = 0;
  last_print = 0;
  last_non_tty_print = 0;
}

-- What is printed: nothing, a line of its own, the bar in place, or the summary with its status.
pub data Shown : Type 0 where
  nothing status_line animated : Shown
  summary : List ℕ → Shown

abbrev millisecond : ℕ
millisecond = 10 ^ 6

unfoldable pub render : ProgressBar → ℕ → ProgressBar × Shown
render p now =
    if p.reporter.quiet
    then (p, nothing)
    else if p.reporter.is_tty
    then (p, animated)
    else if le64 p.total p.current
    then (p, nothing)
    else if ltb now (p.last_non_tty_print + 3000 * millisecond)
    then (p, nothing)
    else (record p { last_non_tty_print = now }, status_line)

unfoldable pub update : ProgressBar → ℕ → ℕ → ProgressBar × Shown
unfolding render
update p current now =
    let p' = record p { current = current } in
    if ltb now (p'.last_print + 200 * millisecond) && lt64 current p'.total
    then (p', nothing)
    else render (record p' { last_print = now }) now

unfoldable pub completion_status : ProgressBar → List ℕ
unfolding bytes
completion_status p = if le64 p.total p.current then bytes "complete" else bytes "interrupted"

unfoldable pub done : ProgressBar → Shown
unfolding completion_status
done p = if p.reporter.quiet then nothing else summary (completion_status p)

unfoldable pub clamp_width : ℕ → ℕ
clamp_width available =
    let width = (if lt64 available 4 then 4 else available) in if lt64 30 width then 30 else width

-- The cells from `i` on, of which `n` are left; `filled` is the position of the arrow.
unfoldable pub cells : ℕ → ℕ → ℕ → List ℕ
cells i zero filled = []
cells i (suc n) filled =
    (if lt64 i filled then b'=' else if i == filled then b'>' else b' ') ∷ cells (suc i) n filled

-- What the line needs beside the label and the bar.
unfoldable pub overhead : List ℕ → List ℕ → ℕ
overhead conn stats = 1 + length conn + 3 + length stats

unfoldable pub pad : ℕ → List ℕ → List ℕ
unfolding spaces
pad width line = if lt64 (length line) width then line ++ spaces (width - length line) else line

-- The line of `width` columns: the carriage return, the label, the connections, the bar and the rest.
unfoldable pub bar_line : ℕ → List ℕ → List ℕ → List ℕ → ℕ → List ℕ
unfolding short_label clamp_width cells overhead pad bytes
bar_line width label conn stats filled =
    let available = sub64 width (overhead conn stats) in
    let bar_width = clamp_width available in
    pad width (
      (13 ∷ [])
      ++ short_label label (sub64 available bar_width)
      ++ conn
      ++ bytes " ["
      ++ cells 0 bar_width filled
      ++ bytes "]"
      ++ stats)

-- A duration in whole seconds, to which it has been rounded.
unfoldable pub format_duration : ℕ → List ℕ
unfolding decimal bytes
format_duration seconds =
    if ltb seconds 60
    then decimal seconds ++ bytes "s"
    else if ltb seconds 3600
    then decimal (seconds / 60) ++ bytes "m" ++ decimal (seconds % 60) ++ bytes "s"
    else decimal (seconds / 3600) ++ bytes "h" ++ decimal (seconds / 60 % 60) ++ bytes "m"
