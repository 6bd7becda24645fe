-- ===== src/Daemon.antt =====
-- The package daemon: the registry of managed processes, their launches and their exits.
pub mod State
pub mod Registry
pub mod Launch
pub mod Journal
pub mod Lifecycle
pub mod Targets
pub mod Ids
pub mod Exits
pub mod Manager
pub mod Starting
pub mod Reach
pub mod Loops
pub mod Histories
pub mod Commands
pub mod Naming
pub mod Saving
mod Examples
mod Scenarios
