-- ===== src/Find.antt =====
-- The search in the terminal's text: `terminalFindState` of guis/terminal_find.go.
pub mod Defs
pub mod Laws
