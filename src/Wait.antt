-- ===== src/Wait.antt =====
-- Wait groups, crates/wgroup/src/lib.rs.
pub mod Group
pub mod Wakeups
