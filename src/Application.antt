-- ===== src/Application.antt =====
-- crates/robine-application/src/lib.rs: the use cases around flows.
pub mod Errors
pub mod Meta
pub mod Home
pub mod Runs
pub mod Guard
pub mod Choose
pub mod Flows
pub mod Triggers
pub mod Schedule
pub mod Automation
