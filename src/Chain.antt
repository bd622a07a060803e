-- ===== src/Chain.antt =====
-- src/chain: HTLC contracts on Bitcoin and Liquid regtest, and what the nodes say of them.
pub mod Types
pub mod Script
pub mod Contract
pub mod Amount
pub mod Bitcoin
pub mod Liquid
pub mod Node
pub mod Checks
pub mod Sanitize
pub mod Observation
