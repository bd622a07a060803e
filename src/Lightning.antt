-- ===== src/Lightning.antt =====
-- src/lightning: the errors of the adapter and the check of a payment request.
pub mod Error
pub mod Bolt11
