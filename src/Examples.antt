-- ===== src/Examples.antt =====
-- The theorems about each part at concrete inputs.
mod Strings
mod Pools
mod Connections
mod Contexts
mod Machine
mod Programs
mod Sessions
mod Guards
mod Servers
mod Reports
