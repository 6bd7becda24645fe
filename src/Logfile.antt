-- ===== src/Logfile.antt =====
-- The package logfile: escaping of log lines, rotation, following and listing.
pub mod Escape
pub mod Rotation
pub mod Follow
pub mod Writer
pub mod Files
mod Examples
mod Scenarios
