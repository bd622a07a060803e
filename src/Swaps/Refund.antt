-- ===== src/Swaps/Refund.antt =====
-- src/swaps/orchestrator.rs: refund_funded_swap_with_observer.
pub mod Rules
pub mod Sending
pub mod Safety
use cross_network_market_mak.Prelude.{
  ℕ, ltb, ◌==◌, Bool, true, false, not, ◌||◌, Option, none, some, Result, ok, err, ok_or, reject_if,
  if◌then◌else◌,
}
use cross_network_market_mak.Prelude.Text.{Text}
use cross_network_market_mak.Core.Endpoint.{is_none}
use cross_network_market_mak.Core.Rfq.Terms.{option_ℕ_eq}
use cross_network_market_mak.Swaps.Error.{SwapResult, durability, recovery_mismatch, chain, unknown}
use cross_network_market_mak.Swaps.Checks.{
  is_canceled_invoice, has_failed, or_zero, of_lightning, validate_spend_outbox,
}
use cross_network_market_mak.Swaps.Effects.{
  funding, claim, refund, FundingOutbox, FundingEvidence, RefundEvidence, HoldInvoice,
  PaymentObservation, refunding, refunded, SwapRecoveryRecord, payment_tracked, invoice_seen,
  height_seen, asked, Adapters, World, Swap, pure, lift, bind_result, call, call_noting,
  read_outbox, ◌>>=◌, ◌>>◌,
}
use cross_network_market_mak.Swaps.Orchestrator.{on_phase, persist_spend, broadcast_outbox}

pub record RefundSwapEvidence : Type 0 where
  pub funding_txid : Text
  pub refund_txid : Text
  pub confirmations : ℕ

unfoldable pub check_record :
    SwapResult (Option SwapRecoveryRecord) → ℕ → SwapResult SwapRecoveryRecord
check_record (err e) amount_sats = err e
check_record (ok none) amount_sats = err (durability "swap recovery record is missing")
check_record (ok (some r)) amount_sats =
    if not (r.session.amount_sats == amount_sats)
    then err (recovery_mismatch "refund amount differs from the recovery record")
    else ok r

abbrev pub is_canceled_with : ℕ → HoldInvoice → Bool
is_canceled_with amount_sats i = not (
    not (is_canceled_invoice i)
    || not (i.amount_sats == amount_sats)
    || not (option_ℕ_eq i.accepted_amount_sats (some amount_sats)))

abbrev pub funding_of : SwapRecoveryRecord → FundingOutbox → FundingEvidence
funding_of r o = record {
  txid = o.txid;
  vout = or_zero o.funding_vout;
  amount_sats = r.session.asset_amount_sats;
  asset_id = r.session.asset_id;
  confirmations = 1;
}

module _ (a : Adapters) where
  unfoldable pub refund_or_prepare :
      SwapRecoveryRecord → FundingEvidence → Option FundingOutbox → Swap FundingOutbox
  refund_or_prepare r evidence (some o) = lift (validate_spend_outbox o refund evidence)
  refund_or_prepare r evidence none = do
    prepared ← call (λ t. a.prepare_spend t r evidence refund) asked
    persist_spend a refund prepared

  unfoldable pub retry_refund :
      FundingOutbox → SwapResult RefundEvidence × World → SwapResult RefundEvidence × World
  retry_refund o (ok e, w) = (ok e, w)
  retry_refund o (err e, w) =
      bind_result (call (λ t. a.confirm_spend t o) asked w)
        (λ _. call (λ t. a.observe_refund t o) asked)

  -- From the height on: the refund is on disk before it is broadcast.
  unfoldable pub send_refund : SwapRecoveryRecord → FundingOutbox → Swap RefundSwapEvidence
  send_refund r funding_outbox = do
    existing ← read_outbox a refund
    outbox ← refund_or_prepare r (funding_of r funding_outbox) existing
    on_phase a refunding
    broadcast_outbox a outbox
    evidence ← (λ w. retry_refund outbox (call (λ t. a.observe_refund t outbox) asked w))
    on_phase a refunded
    pure (record {
      funding_txid = evidence.funding_txid;
      refund_txid = evidence.txid;
      confirmations = evidence.confirmations;
    })

  unfoldable pub refund_if_due : SwapRecoveryRecord → FundingOutbox → Swap RefundSwapEvidence
  refund_if_due r funding_outbox = do
    height ← call_noting a.current_height height_seen
    lift (
        reject_if (ltb height r.contract.refund_lock_height)
          (chain "refund is early at height {height}; requires {}"))
    send_refund r funding_outbox

  unfoldable pub refund_if_funded : SwapRecoveryRecord → Swap RefundSwapEvidence
  refund_if_funded r = do
    funded ← read_outbox a funding
    funding_outbox ← lift (ok_or funded (unknown "funding outbox is missing"))
    refund_if_due r funding_outbox

  unfoldable pub refund_if_canceled : ℕ → SwapRecoveryRecord → Swap RefundSwapEvidence
  refund_if_canceled amount_sats r = do
    invoice ←
        call_noting (λ t. of_lightning (a.lookup_invoice t r.session.material.hash_commitment))
          invoice_seen
    lift (
        reject_if (not (is_canceled_with amount_sats invoice))
          (unknown "refund requires a canceled hold invoice with the quoted amount"))
    claimed ← read_outbox a claim
    lift (
        reject_if (not (is_none claimed))
          (recovery_mismatch "a claim outbox exists; refund is no longer safe"))
    refund_if_funded r

  unfoldable pub refund_if_failed : ℕ → SwapRecoveryRecord → Swap RefundSwapEvidence
  refund_if_failed amount_sats r = do
    payment ←
        call_noting (λ t. a.track_by_hash t r.session.material.hash_commitment) payment_tracked
    lift (
        reject_if (not (has_failed payment))
          (unknown "refund requires a terminal failed Lightning payment"))
    refund_if_canceled amount_sats r

  -- `recovery` is what `read_recovery` answered.
  unfoldable pub refund_funded_swap_with_observer :
      SwapResult (Option SwapRecoveryRecord) → ℕ → Swap RefundSwapEvidence
  refund_funded_swap_with_observer recovery amount_sats = do
    r ← lift (check_record recovery amount_sats)
    refund_if_failed amount_sats r
