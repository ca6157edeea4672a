-- ===== src/Monitor.antt =====
-- The sampling of a host: hostmonitor/session.go.
pub mod Defs
pub mod Watch
pub mod Latest
