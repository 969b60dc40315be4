-- ===== src/Job.antt =====
-- internal/job/runner.go: the names of files and labels, the exit codes, and the loop over the URLs. The
-- exit codes are the numbers of the ExitCode constants.
pub mod Naming
pub mod Exit
pub mod Worker
pub mod Run
pub mod Download
pub mod Sequential
pub mod Route
pub mod Output
pub mod Main
mod Tests
