-- ===== src/ConnectionStore.antt =====
-- The saved connections: `connectionStore` of guis/guis.go and guis/connection_store_sqlite.go.
pub mod Normalize
pub mod Identities
pub mod Settled
pub mod Rows
pub mod Sqlite
pub mod Loading
pub mod Outcome
pub mod RoundTrip
pub mod Opened
pub mod Reopened
