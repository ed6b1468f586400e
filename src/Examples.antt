-- ===== src/Examples.antt =====
-- Tests, and the theorems at concrete inputs.
pub mod Suites
pub mod Gates
pub mod Runs
pub mod Statuses
pub mod Revisions
pub mod Contents
pub mod Passes
pub mod Namespaces
pub mod Rollouts
pub mod Policies
