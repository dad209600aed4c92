-- ===== src/Executor.antt =====
-- The executor's side: crates/ora/src/executor/implementation.
pub mod Types
pub mod State
pub mod Runs
pub mod Loop
pub mod Invariant
pub mod Preserved
pub mod Steps
pub mod Kept
pub mod Answers
pub mod Endings
