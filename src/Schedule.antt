-- ===== src/Schedule.antt =====
-- `next_execution_time` and what it rests on, in crates/ora-server/src/server/schedules.rs.
-- What the code takes from other libraries is a parameter: `limit` is the last time that the
-- platform represents, `in_range` says which times `jiff::Timestamp` supports, `parse` reads a cron
-- expression, and `find_next` gives the first matching time after a time.
pub mod Defs
pub mod Interval
pub mod Validated
pub mod Batch
pub mod Plans
