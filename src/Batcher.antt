-- ===== src/Batcher.antt =====
-- `guiOutputBatcher` of guis/guis.go: output of a command on its way to the GUI thread.
pub mod Defs
pub mod Steps
pub mod Order
pub mod Progress
