-- ===== src/JobTypes.antt =====
-- The IDs of job types, crates/ora-backend/src/jobs.rs.
pub mod Ids
pub mod Grammar
pub mod Scan
