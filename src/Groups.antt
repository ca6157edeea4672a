-- ===== src/Groups.antt =====
-- The hierarchy of connection groups: guis/connection_manager.go, guis/group_rename.go and
-- guis/group_remove.go.
pub mod Paths
pub mod Edit
pub mod Segments
pub mod Contains
pub mod Rows
pub mod Rename
pub mod Remove
