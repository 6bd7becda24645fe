-- ===== src/Runhistory.antt =====
-- The package runhistory: the run journals, their queries and their retention.
pub mod Names
pub mod Query
pub mod Retention
pub mod Store
pub mod Lookup
mod Examples
