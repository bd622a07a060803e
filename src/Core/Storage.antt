-- ===== src/Core/Storage.antt =====
-- src/core/storage.rs: the SQLite store of swaps, reservations, ledgers, journal and outbox.
pub mod Tables
pub mod Codec
pub mod Journal
pub mod Outbox
pub mod Reservations
pub mod Swaps
pub mod History
