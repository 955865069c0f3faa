-- ===== src/Tests.antt =====
-- Runs of the operator on a server in memory, and the theorems at concrete arguments.
pub mod Data
pub mod Volumes
pub mod Pods
pub mod Runs
pub mod Accounts
pub mod Served
pub mod Live
pub mod Startup
