-- ===== src/Swaps/Orchestrator/Exposure/Payment.antt =====
-- The Lightning side exposes nothing.
use cross_network_market_mak.Prelude.{not, Option, none, some, Bool-cases, inl, inr, reject_if}
use cross_network_market_mak.Prelude.Text.{Text}
use cross_network_market_mak.Core.Primitives.{Bytes}
use cross_network_market_mak.Swaps.Error.{lightning, unknown}
use cross_network_market_mak.Swaps.Effects.{
  funding, HoldInvoice, SwapTerms, SwapRecoveryRecord, Adapters, World, payment_sent,
  payment_tracked, hold_settled,
}
use cross_network_market_mak.Swaps.Orchestrator.{
  is_open, is_settled, send_payment, pay_if_open, settle_invoice, track_success,
  is_settled_recovery, has_failed, has_succeeded,
}
use cross_network_market_mak.Swaps.Orchestrator.Exposure.{
  Quiet, After, answer-After, call-After, call_noting-After, bind_result-After, read-Quiet,
}

module _ (a : Adapters) where
  send_payment-Quiet :
      (request : Option Text) (r : SwapRecoveryRecord) (terms : SwapTerms) (w : World)
      → Quiet w
      → After Quiet (send_payment a request r terms w)
  unfolding send_payment
  send_payment-Quiet none r terms w q = q
  send_payment-Quiet (some request) r terms w q =
      bind_result-After Quiet _ _
        (call-After Quiet (λ t. a.pay t request r.session.material.hash_commitment terms)
          payment_sent w q)
        (λ o w q.
          answer-After Quiet
            (reject_if (has_failed o)
              (lightning "Lightning payment failed before the hold was accepted"))
            w q)

  pub pay_if_open-Quiet :
      (i : HoldInvoice) (r : SwapRecoveryRecord) (terms : SwapTerms) (w : World)
      → Quiet w
      → After Quiet (pay_if_open a i r terms w)
  unfolding pay_if_open
  pay_if_open-Quiet i r terms w q = elim (Bool-cases (is_open i)) [
    | inl opened ↦ rw opened (send_payment-Quiet i.payment_request r terms w q)
    | inr other ↦ rw other q
  ]

  pub settle_invoice-Quiet :
      (i : HoldInvoice) (x : Bytes) (w : World) → Quiet w → After Quiet (settle_invoice a i x w)
  unfolding settle_invoice
  settle_invoice-Quiet i x w q = elim (Bool-cases (is_settled i)) [
    | inl done ↦ rw done q
    | inr pending ↦
        rw pending (call-After Quiet (λ t. a.settle_hold t i.payment_hash x) (hold_settled x) w q)
  ]

  pub track_success-Quiet :
      (hash : Bytes) (w : World) → Quiet w → After Quiet (track_success a hash w)
  unfolding track_success
  track_success-Quiet hash w q =
      bind_result-After Quiet _ _
        (call_noting-After Quiet (λ t. a.track_by_hash t hash) payment_tracked w (λ _. q))
        (λ o w q.
          bind_result-After Quiet _ _
            (answer-After Quiet
              (reject_if (not (has_succeeded o)) (unknown "Lightning payment ended in {:?}")) w q)
            (λ _ w q. q))

  pub is_settled_recovery-Quiet :
      (i : HoldInvoice) (w : World) → Quiet w → After Quiet (is_settled_recovery a i w)
  unfolding is_settled_recovery
  is_settled_recovery-Quiet i w q = elim (Bool-cases (is_settled i)) [
    | inl done ↦ rw done (bind_result-After Quiet _ _ (read-Quiet a funding w q) (λ o w q. q))
    | inr other ↦ rw other q
  ]
