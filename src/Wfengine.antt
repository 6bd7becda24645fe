-- ===== src/Wfengine.antt =====
-- The package daemon/wfengine: definitions, single flight, and the execution of runs.
pub mod Exit
pub mod State
pub mod Stages
pub mod Execute
pub mod Registry
pub mod Firing
pub mod Listing
mod Examples
mod Scenarios
