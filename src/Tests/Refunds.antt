-- ===== src/Tests/Refunds.antt =====
-- A refund after the payment has failed.
use cross_network_market_mak.Prelude.{◌≡◌, refl, true, some, none, ok}
use cross_network_market_mak.Prelude.Text.{codes}
use cross_network_market_mak.Core.Rfq.Terms.{option_ℕ_eq}
use cross_network_market_mak.Swaps.Effects.{
  funding, kind_eq, failed, canceled, HoldInvoice, Adapters, World, read_outbox, write_outbox,
  read_or_fail, write_or_fail, write_or_compare,
}
use cross_network_market_mak.Swaps.Orchestrator.{persist_spend, broadcast_outbox}
use cross_network_market_mak.Swaps.Refund.{
  check_record, refund_or_prepare, retry_refund, send_refund, refund_if_due, refund_if_funded,
  refund_if_canceled, refund_if_failed, refund_funded_swap_with_observer,
}
use cross_network_market_mak.Swaps.Refund.Rules.{refunds_checked}
use cross_network_market_mak.Swaps.Refund.Safety.{refund_funded_swap-checked}
use cross_network_market_mak.Tests.Runs.{outbox, held_invoice, adapters, recovery, fresh}

abbrev canceled_invoice : HoldInvoice
canceled_invoice = record held_invoice { state = canceled }

abbrev failing : Adapters
failing = record adapters {
  current_height = λ t. ok 1100;
  lookup_invoice = λ t hash. ok canceled_invoice;
  track_by_hash = λ t hash. ok (record {
    payment_hash = hash;
    failure_reason = some (codes "no route");
    fee_sats = none;
    state = failed;
    payment_preimage = none;
  });
}

abbrev funded : World
funded = record fresh { funding_file = some (outbox funding) }

refunds :
    (refund_funded_swap_with_observer failing (ok (some recovery)) 100 funded).0
    ≡ ok (record { funding_txid = codes "fund"; refund_txid = codes "refund"; confirmations = 1 })
unfolding refund_funded_swap_with_observer check_record refund_if_failed refund_if_canceled
    refund_if_funded refund_if_due send_refund refund_or_prepare retry_refund persist_spend
    broadcast_outbox read_outbox write_outbox read_or_fail write_or_fail write_or_compare
    option_ℕ_eq kind_eq
refunds = refl

refund_funded_swap-checked_example :
    refunds_checked 100 1100
      (refund_funded_swap_with_observer failing (ok (some recovery)) 100 funded).1.trace
    ≡ true
refund_funded_swap-checked_example =
    refund_funded_swap-checked failing (ok (some recovery)) 100 1100 funded (λ r e. cc) refl
