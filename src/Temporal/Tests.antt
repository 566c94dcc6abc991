-- ===== src/Temporal/Tests.antt =====
-- Runs of the definitions for temporal/ on a small editorial workflow.
pub mod Sample
pub mod Runs
pub mod Steps
pub mod Calls
mod Watched
mod Recovered
mod Counted
mod Loops
mod Waiting
