-- ===== src/Server.antt =====
-- The loops of the server, crates/ora-server/src/server.
pub mod Retry
pub mod Backoff
pub mod Failures
pub mod Attempts
pub mod Repeats
pub mod Timeouts
pub mod Events
pub mod Starts
pub mod Refusals
pub mod Results
pub mod Fates
pub mod Ready
pub mod Passes
pub mod Ignored
pub mod Receiving
pub mod Drained
pub mod Settled
pub mod Delivered
