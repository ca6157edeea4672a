-- ===== src/Connections.antt =====
-- The connections of the terminal package: terminal/connection.go.
pub mod Defs
pub mod Distinct
