-- ===== src/Core/Settlement/Evidence.antt =====
-- `PaymentEvidence::validate_against` and its public form.
pub mod Laws
use cross_network_market_mak.Prelude.{◌==◌, true, not, ◌||◌, ok, reject_if}
use cross_network_market_mak.Prelude.Outcome.{◌>>=◌, ◌>>◌}
use cross_network_market_mak.Prelude.Text.{Text, text_eq, codes}
use cross_network_market_mak.Core.Error.{CoreResult, adapter}
use cross_network_market_mak.Core.Primitives.{Primitives}
use cross_network_market_mak.Core.Amount.{is_empty}
use cross_network_market_mak.Core.Hash.{hash_preimage, as_hex}
use cross_network_market_mak.Core.Settlement.{
  PaymentEvidence, LightningEvidence, ChainEvidence, PublicPaymentEvidence,
}

module _ (p : Primitives) where
  validate_lightning : LightningEvidence → Text → Text → CoreResult (Unit {0})
  validate_lightning e expected_hash expected_amount = do
    reject_if
        (not (text_eq e.payment_hash expected_hash)
          || not (text_eq e.amount_msat expected_amount)
          || not (text_eq e.observed_state (codes "SUCCEEDED")))
        (adapter "Lightning evidence does not bind hash, amount, and state")
    commitment ← hash_preimage p e.preimage_hex
    reject_if (not (text_eq (as_hex p commitment) expected_hash))
        (adapter "Lightning preimage does not hash to the expected commitment")
    ok tt

  validate_chain : ChainEvidence → Text → Text → CoreResult (Unit {0})
  validate_chain e expected_hash expected_amount = do
    reject_if
        (not (text_eq e.amount expected_amount)
          || not (text_eq e.hash_commitment expected_hash)
          || is_empty e.outpoint
          || not e.script_verified
          || e.confirmations == 0)
        (adapter "chain evidence does not bind amount, hash, and confirmation")
    ok tt

  unfoldable pub validate_against : PaymentEvidence → Text → Text → CoreResult (Unit {0})
  unfolding validate_lightning validate_chain
  validate_against (PaymentEvidence.lightning e) hash amount = validate_lightning e hash amount
  validate_against (PaymentEvidence.chain e) hash amount = validate_chain e hash amount

-- The preimage is left out.
unfoldable pub public : PaymentEvidence → PublicPaymentEvidence
public (PaymentEvidence.lightning e) = PublicPaymentEvidence.lightning (record {
  payment_hash = e.payment_hash;
  amount_msat = e.amount_msat;
  observed_state = e.observed_state;
  preimage_verified = true;
})
public (PaymentEvidence.chain e) = PublicPaymentEvidence.chain e
