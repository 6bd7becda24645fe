-- ===== src/Process.antt =====
-- The package process: the cells of its tables.
pub mod Format
mod Examples
