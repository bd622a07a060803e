-- ===== src/Chain/Script.antt =====
-- src/chain/htlc_script.rs. The script is its instructions; assembling them to bytes is left to the
-- `bitcoin` crate.
pub mod Consensus
pub mod Htlc
use cross_network_market_mak.Prelude.{
  ℕ, ltb, leb, not, ◌&&◌, ◌^◌, List, [], ◌∷◌, ok, ok_or, reject_if, Option, none, some,
  if◌then◌else◌,
}
use cross_network_market_mak.Prelude.Outcome.{◌>>=◌, ◌>>◌}
use cross_network_market_mak.Core.Primitives.{Bytes}
use cross_network_market_mak.Chain.Types.{ChainResult, invalid_input}

pub data Opcode : Type 0 where
  op_if op_else op_endif op_size op_equalverify op_sha256 op_checksig op_cltv op_drop : Opcode

pub data Instruction : Type 0 where
  opcode : Opcode → Instruction
  push_int : ℕ → Instruction
  push_slice : Bytes → Instruction

abbrev pub Script : Type 0
Script = List Instruction

unfoldable pub validate_lock_height : ℕ → ChainResult (Unit {0})
validate_lock_height refund_lock_height = do
  reject_if (not (leb 1 refund_lock_height && ltb refund_lock_height 500000000))
      (invalid_input "refund lock height must be a positive block height below 500000000")
  ok tt

-- `i64::try_from` of a `u64`.
abbrev pub to_i64 : ℕ → Option ℕ
to_i64 n = if ltb n (2 ^ 63) then some n else none

abbrev pub htlc_instructions : Bytes → Bytes → Bytes → ℕ → Script
htlc_instructions hash claim_key refund_key lock_height =
    opcode op_if
    ∷ opcode op_size
    ∷ push_int 32
    ∷ opcode op_equalverify
    ∷ opcode op_sha256
    ∷ push_slice hash
    ∷ opcode op_equalverify
    ∷ push_slice claim_key
    ∷ opcode op_checksig
    ∷ opcode op_else
    ∷ push_int lock_height
    ∷ opcode op_cltv
    ∷ opcode op_drop
    ∷ push_slice refund_key
    ∷ opcode op_checksig
    ∷ opcode op_endif
    ∷ []

-- The pushes are of 32 and 33 bytes, which are always accepted.
unfoldable pub build_htlc_witness_script : Bytes → Bytes → Bytes → ℕ → ChainResult Script
unfolding validate_lock_height
build_htlc_witness_script hash_lock claim_pubkey refund_pubkey refund_lock_height = do
  validate_lock_height refund_lock_height
  lock_height ←
      ok_or (to_i64 refund_lock_height)
        (invalid_input "refund lock height exceeds signed script integer range")
  ok (htlc_instructions hash_lock claim_pubkey refund_pubkey lock_height)
