-- ===== src/Eval.antt =====
-- internal/controller/evalcontroller.go: the eval controller.
pub mod Records
pub mod Retention
pub mod Pass
pub mod Sends
pub mod Agree
pub mod Cases
pub mod Outcome
pub mod Steps
pub mod NextCase
pub mod Safety
pub mod Exclusion
