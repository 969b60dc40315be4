-- ===== src/Progress/Tests.antt =====
-- A line of 60 columns, and a download that ends between two ticks.
use pget.Base.{ℕ, ◌^◌, ◌≤◌, ◌<◌, ◌≡◌, refl, true, false, List, bytes, length, arith}
use pget.Base.Int64.{sub64}
use pget.Base.Decimal.{decimal}
use pget.Progress.{
  new_reporter, new_progress_bar, update, done, summary, nothing, bar_line, clamp_width, overhead,
  format_duration,
}
use pget.Progress.Layout.{columns, bar_line-fits}

-- The last tick came before the last bytes.
between_ticks_test :
    done (update (new_progress_bar (new_reporter false false false) 100) 60 (10 ^ 9)).0
    ≡ summary (bytes "interrupted")
unfolding done update bytes new_progress_bar new_reporter
between_ticks_test = refl

quiet_test : (update (new_progress_bar (new_reporter true false true) 100) 60 (10 ^ 9)).1 ≡ nothing
unfolding update new_progress_bar new_reporter
quiet_test = refl

duration_test : format_duration 3725 ≡ bytes "1h2m"
unfolding format_duration decimal bytes
duration_test = refl

abbrev name : List ℕ
name = bytes "a-rather-long-name.iso"

abbrev conn : List ℕ
conn = bytes " CN:4"

abbrev stats : List ℕ
stats = bytes " 50% 1K/2K 1KB/s ETA 1s  "

bar_line-fits_example :
    (4 ≤ clamp_width (sub64 44 (overhead conn stats)))
    × (clamp_width (sub64 44 (overhead conn stats)) ≤ 30)
    × (44 ≤ length (bar_line 44 name conn stats 3))
    × (columns (bar_line 44 name conn stats 3) < 44)
unfolding bytes overhead
bar_line-fits_example = bar_line-fits 44 name conn stats 3 (omega arith) (omega arith) (omega arith)
