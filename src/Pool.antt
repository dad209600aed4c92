-- ===== src/Pool.antt =====
-- The executor pool of the server, crates/ora-server/src/executor_pool.rs.
pub mod State
pub mod Queue
pub mod Offer
pub mod Accepted
pub mod Cancel
pub mod Turn
pub mod Handlers
pub mod Loop
pub mod Measure
pub mod Shrinking
pub mod Rounds
pub mod Places
pub mod Offering
pub mod Invariant
pub mod History
pub mod Batches
pub mod Ledger
pub mod Quiet
pub mod Conservation
pub mod Backoff
pub mod Cancelling
