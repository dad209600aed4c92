-- ===== src/Convert.antt =====
-- Between the messages of the protocol and the types of the backend,
-- crates/ora-server/src/grpc/conv.rs.
pub mod Status
pub mod Messages
pub mod Policies
pub mod Jobs
pub mod Filters
pub mod Queries
pub mod Schedules
pub mod RoundTrip
pub mod Arrivals
pub mod Refusals
