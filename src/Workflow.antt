-- ===== src/Workflow.antt =====
-- The package workflow: declared workflows and the graph of their references.
pub mod Stage
pub mod Config
pub mod Graph
pub mod Search
pub mod Resolve
pub mod Examples
pub mod Validation
pub mod Batch
