-- ===== src/Interactive.antt =====
-- The terminals' transports: `interactiveRuntimeRegistry` of guis/interactive_runtime.go.
pub mod Defs
pub mod Owned
pub mod Own
pub mod World
pub mod Life
