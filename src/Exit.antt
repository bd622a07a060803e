-- ===== src/Exit.antt =====
-- src/exit: the accounting and the proofs of a unilateral exit.
pub mod Error
pub mod Proof
