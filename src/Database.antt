-- ===== src/Database.antt =====
-- The storage primitives of internal/database/database.go.
pub mod Tx
pub mod ConnectionTable
pub mod HistoryTable
pub mod Ends
pub mod Written
pub mod Migrations
pub mod HistoryMigration
pub mod Atomic
pub mod Saved
pub mod Histories
pub mod Migrated
