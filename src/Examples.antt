-- ===== src/Examples.antt =====
-- Tests of the definitions, and the theorems applied at concrete inputs.
mod Workspaces
mod Terminal
mod Hierarchy
mod Sessions
mod Hosts
mod Histories
mod Databases
mod ConnectionStores
