-- ===== src/Schedule.antt =====
-- internal/schedule: the chunk scheduler and connection controller.
pub mod Stats
pub mod State
pub mod Assign
pub mod Counts
pub mod Invariant
pub mod Preserve
pub mod Steps
pub mod Assignment
pub mod Resume
pub mod Evolve
pub mod Tally
pub mod Masked
pub mod Dispatched
pub mod Sweep
pub mod Waiting
pub mod Backoff
pub mod Attempts
mod Tests
pub mod Report
pub mod Hedge
