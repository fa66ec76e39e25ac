-- ===== src/Core.antt =====
-- The beacon processes of a daemon: src/core.
pub mod Folder
pub mod Daemon
pub mod Process
