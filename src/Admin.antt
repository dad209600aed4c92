-- ===== src/Admin.antt =====
-- The admin service: crates/ora-server/src/grpc/admin.rs.
pub mod Checks
pub mod Jobs
pub mod Schedules
pub mod Admitted
pub mod Cancelled
pub mod Stops
pub mod Planned
