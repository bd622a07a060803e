-- ===== src/Core/Settlement.antt =====
-- src/core/settlement.rs: the states of a swap, and the evidence that a payment was made.
pub mod Paths
pub mod Evidence
use cross_network_market_mak.Prelude.{ℕ, Bool, true, false, Option, ok, err, if◌then◌else◌}
use cross_network_market_mak.Prelude.Text.{Text}
use cross_network_market_mak.Core.Error.{CoreResult, invalid_state}

pub data SwapState : Type 0 where
  created input_funding input_locked output_pending output_unknown output_settled : SwapState
  claim_pending settled refunding refunded failed : SwapState

unfoldable pub can_transition_to : SwapState → SwapState → Bool
can_transition_to created input_funding = true
can_transition_to input_funding input_locked = true
can_transition_to input_funding failed = true
can_transition_to input_locked output_pending = true
can_transition_to input_locked refunding = true
can_transition_to output_pending output_unknown = true
can_transition_to output_pending output_settled = true
can_transition_to output_unknown output_settled = true
can_transition_to output_unknown refunding = true
can_transition_to output_settled claim_pending = true
can_transition_to claim_pending settled = true
can_transition_to refunding refunded = true
can_transition_to refunding failed = true
can_transition_to _ _ = false

unfoldable pub validate_transition : SwapState → SwapState → CoreResult (Unit {0})
validate_transition current next =
    if can_transition_to current next
    then ok tt
    else err (invalid_state "{current:?} cannot transition to {next:?}")

pub data FundingLockProof : Type 0 where
  -- txid, vout, amount, asset_hash, hash_commitment, confirmations
  chain : Text → ℕ → Text → Option Text → Text → ℕ → FundingLockProof
  -- payment_hash, amount_msat, expiry_height, headroom_blocks, observed_state
  lightning : Text → Text → ℕ → ℕ → Text → FundingLockProof

pub record LightningEvidence : Type 0 where
  pub payment_hash : Text
  pub amount_msat : Text
  pub preimage_hex : Text
  pub observed_state : Text

pub record ChainEvidence : Type 0 where
  pub txid : Text
  pub outpoint : Text
  pub amount : Text
  pub asset_hash : Option Text
  pub hash_commitment : Text
  pub confirmations : ℕ
  pub script_verified : Bool

pub data PaymentEvidence : Type 0 where
  lightning : LightningEvidence → PaymentEvidence
  chain : ChainEvidence → PaymentEvidence

pub record PublicLightningEvidence : Type 0 where
  pub payment_hash : Text
  pub amount_msat : Text
  pub observed_state : Text
  pub preimage_verified : Bool

pub data PublicPaymentEvidence : Type 0 where
  lightning : PublicLightningEvidence → PublicPaymentEvidence
  chain : ChainEvidence → PublicPaymentEvidence
