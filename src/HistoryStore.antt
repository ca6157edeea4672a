-- ===== src/HistoryStore.antt =====
-- The command history that outlives the program: terminal/log.go and terminal/scanner.go.
pub mod Entry
pub mod Truncated
pub mod Ring
pub mod File
pub mod Append
pub mod Lines
pub mod Shapes
pub mod Tails
pub mod Repair
pub mod Recovery
pub mod Survival
pub mod Query
pub mod Sqlite
pub mod Store
pub mod Selected
pub mod Held
pub mod Legacy
pub mod Retry
