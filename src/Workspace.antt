-- ===== src/Workspace.antt =====
-- The terminal tabs of the main window: guis/session_workspace.go.
-- A method on `*sessionWorkspace` takes the workspace and returns the new one with its result.
-- The receiver is not nil; on nil every method returns the zero result of its type.
pub mod Tabs
pub mod ById
pub mod Order
pub mod Lifecycle
pub mod Frame
pub mod Shift
pub mod Invariant
pub mod Preserve
pub mod Sessions
pub mod Counter
pub mod Moves
pub mod Pins
pub mod Closing
pub mod Runs
pub mod Action
