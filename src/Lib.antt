-- ===== src/Lib.antt =====
-- NBTerminal: the logic of a desktop terminal with saved connections, local and SSH sessions.
--
-- The program (Go) keeps saved connection profiles, opens each as a terminal tab with an own
-- runtime, and shows them through a native window toolkit. This library models the state and the
-- operations behind the windows, and leaves out the windows. A module is named for its part of
-- the program:
--
-- Base has the shared names, lists, Go's signed `int`, and Go strings as lists of runes with the
-- functions of package `strings` that the program calls.
-- Profile is `connectionProfile` (guis/guis.go).
-- Workspace is `sessionWorkspace` (guis/session_workspace.go). Its children `Tabs`, `ById`,
-- `Order` and `Lifecycle` define the methods and `Action` joins them to one step function;
-- `Frame` and `Shift` hold the facts on lists of tabs, and the others prove what their names say.
--
-- Navigator is the movement of a selection in the connection lists (guis/guis.go).
-- Find is `terminalFindState` (guis/terminal_find.go). Views, matches, the search and the validation
-- of patterns belong to the toolkit: they are the fields of the parameter `Toolkit`.
-- History is `commandHistoryCursor` (guis/command_history_navigation.go); `Traversal` adds the arrow keys.
-- Batcher is `guiOutputBatcher` (guis/guis.go). `Defs` cuts its methods at the lock, `Steps` lets
-- producers, the scheduler and the GUI thread take the pieces in any order, `Order` and `Progress`
-- prove what survives that.
-- Groups is the hierarchy of connection groups (guis/connection_manager.go, guis/group_rename.go,
-- guis/group_remove.go): `Paths` and `Edit` define the functions, `Segments` and `Contains` describe
-- paths by their segments, `Rows`, `Rename` and `Remove` the edits of the rows.
-- Runs is the bookkeeping of running commands in guis/guis.go, one run for each session.
-- Interactive is `interactiveRuntimeRegistry` (guis/interactive_runtime.go). Transports, the functions
-- that cancel contexts and the results of starts are parameters; the calls on transports are recorded
-- as effects. `Replace` is two steps, since it gives up the lock while the successor starts: `World`
-- keeps the replacements between the two, whose contexts have been made already.
-- Connections is terminal/connection.go, with `unicode.ToLower` as a parameter.
-- Database is internal/database/database.go: `Tx` gives the tables, statements that can fail and
-- transactions, `ConnectionTable` and `HistoryTable` the operations. A statement does what its text says
-- to the tables, which are lists; SQLite itself, the schema and the file are not modelled.
-- Security is internal/security/codec.go; the cipher of package gtbox, base64 and HMAC are parameters,
-- and `Cipher` is the interface of it that the stores use.
-- ConnectionStore is `connectionStore` on a database (guis/connection_store_sqlite.go, guis/guis.go):
-- `Normalize` the lists, `Rows` their encryption, `Sqlite` the saving, `Loading` the reading with the
-- migration of an older file. JSON, the cipher, the random numbers, the clock, the localized texts and
-- the profiles found in the configuration are parameters. `uniqueProfileID` has as fuel one more than
-- the identities seen, as in Base.Fresh.
-- HistoryStore is the command history of terminal/log.go with the scanner of terminal/scanner.go:
-- `File` reads and `Append` writes the file, whose steps can fail one by one, `Query` selects,
-- `Sqlite` works on the database, `Legacy` brings the file into it, `Store` chooses. `Lines`, `Shapes`,
-- `Tails` and `Repair` describe what the file can hold. JSON and `normalizeUTF8` are parameters, and
-- strings are bytes there; the other children prove what their names say.
-- Monitor is the sampling of a host (hostmonitor/session.go, hostmonitor/types.go): each critical
-- section and each `select` of `publish` is a step, the answers of the source and the clock are
-- arguments. `Watch` puts the sampling loop and a reader of its updates together.
-- Profiles is the list of profiles by identity (guis/guis.go).
-- Examples has tests and applies the theorems at concrete inputs.
--
-- A method on a pointer takes the record and returns the new one. A receiver is never nil here.
-- Integers: Go's `int` is ℤ where it can be negative and ℕ elsewhere, without the 64-bit bound,
-- which no count of tabs or rows reaches; the `uint64` counters wrap around at 2^64 as written.
-- The search for an unused identity (Base.Fresh) has as fuel one more than the number of identities in
-- use; it is enough because the candidates are all different. The other fuel is in a proof
-- (Batcher.Progress), one more than the bound on the steps.
--
-- Not modelled: the widgets and their callbacks, drawing, layout, the SSH and PTY transports, the
-- SQLite driver, the cipher and the operating system's files. Localized texts are arguments.
pub mod Base
pub mod Profile
pub mod Workspace
pub mod Navigator
pub mod Find
pub mod History
pub mod Batcher
pub mod Groups
pub mod Runs
pub mod Security
pub mod Interactive
pub mod Connections
pub mod ConnectionStore
pub mod Database
pub mod HistoryStore
pub mod Monitor
pub mod Profiles
mod Examples
