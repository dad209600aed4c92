-- ===== src/Form.antt =====
-- The form of the terminal UI for new jobs and schedules, crates/ora-cli/src/tui/ui/form.rs, and the
-- keys that it takes, crates/ora-cli/src/tui.rs.
pub mod Text
pub mod State
pub mod Moves
pub mod Typing
pub mod Erasing
pub mod Edits
pub mod Fits
pub mod Erased
pub mod Words
pub mod Valid
pub mod Moved
pub mod Keyed
pub mod RoundTrip
pub mod WordErased
pub mod Json
pub mod Window
pub mod Payload
pub mod Options
pub mod Policies
pub mod Filled
pub mod Duplicated
pub mod Nodes
pub mod Schema
pub mod Choices
pub mod Walk
pub mod Walked
pub mod Fields
pub mod WellFormed
pub mod Placed
pub mod Separate
pub mod Assembled
pub mod Unmoved
