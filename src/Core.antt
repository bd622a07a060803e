-- ===== src/Core.antt =====
-- `src/core`: amounts, endpoints, routes, quotes, settlement states and the durable store.
pub mod Error
pub mod Primitives
pub mod Amount
pub mod Network
pub mod Hash
pub mod Endpoint
pub mod Settlement
pub mod Routes
pub mod Rfq
pub mod Storage
