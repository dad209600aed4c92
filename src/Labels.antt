-- ===== src/Labels.antt =====
-- The labels of jobs and schedules.
pub mod Defs
pub mod Inheritance
