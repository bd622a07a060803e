-- ===== src/Swaps.antt =====
-- src/swaps: one swap between a chain and Lightning.
pub mod Error
pub mod Timing
pub mod Recovery
pub mod Effects
pub mod Checks
pub mod Orchestrator
pub mod Refund
pub mod Runs
