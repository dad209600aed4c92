-- ===== src/Tests.antt =====
-- The theorems at concrete inputs.
mod Data
mod Pool
mod Server
mod Schedule
mod Labels
mod Wait
mod Starts
mod Convert
mod Executor
mod Admin
mod Ready
mod Form
mod Schemas
mod Receiving
mod Duplicated
