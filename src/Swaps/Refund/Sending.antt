-- ===== src/Swaps/Refund/Sending.antt =====
-- The refund is sent when all that must have been seen was seen.
use cross_network_market_mak.Prelude.{
  ℕ, ◌≡◌, Bool, true, not, ◌&&◌, any, Option, none, some, ok, err, arith, Bool-cases, inl, inr, ◌∷◌,
}
use cross_network_market_mak.Swaps.Error.{SwapResult}
use cross_network_market_mak.Swaps.Checks.{validate_spend_outbox}
use cross_network_market_mak.Swaps.Effects.{
  OutboxKind, claim, refund, kind_eq, FundingOutbox, FundingEvidence, RefundEvidence,
  PreparedTransaction, refunding, refunded, SwapRecoveryRecord, Effect, phase, broadcast, asked,
  Trace, Adapters, World, pure, call, write_outbox,
}
use cross_network_market_mak.Swaps.Orchestrator.{persist_spend, broadcast_outbox}
use cross_network_market_mak.Swaps.Orchestrator.Order.{is_durable}
use cross_network_market_mak.Swaps.Refund.{funding_of, refund_or_prepare, retry_refund, send_refund}
use cross_network_market_mak.Swaps.Refund.Rules.{
  is_failed_payment, is_canceled_for, is_missing, is_due, Keeps, any-Keeps, and-Keeps, Good, Post,
  bind-Post, answer-Post, call-Post, Found, read-Post, Stored, write-Post,
}

module _ (amount lock : ℕ) where
  abbrev pub failed_seen : Trace → Bool
  failed_seen = any is_failed_payment

  abbrev pub canceled_seen : Trace → Bool
  canceled_seen t = failed_seen t && any (is_canceled_for amount) t

  abbrev pub unclaimed_seen : Trace → Bool
  unclaimed_seen t = canceled_seen t && any (is_missing claim) t

  abbrev pub due_seen : Trace → Bool
  due_seen t = unclaimed_seen t && any (is_due lock) t

  pub canceled-Keeps : Keeps canceled_seen
  canceled-Keeps =
      and-Keeps failed_seen (any (is_canceled_for amount)) (any-Keeps is_failed_payment)
        (any-Keeps (is_canceled_for amount))

  pub unclaimed-Keeps : Keeps unclaimed_seen
  unclaimed-Keeps =
      and-Keeps canceled_seen (any (is_missing claim)) canceled-Keeps (any-Keeps (is_missing claim))

  pub due-Keeps : Keeps due_seen
  due-Keeps = and-Keeps unclaimed_seen (any (is_due lock)) unclaimed-Keeps (any-Keeps (is_due lock))

  module _ (a : Adapters) where
    abbrev Ready : FundingOutbox → Trace → Type 0
    Ready = Stored amount lock a due_seen due-Keeps

    Ready-cons : (o : FundingOutbox) (e : Effect) (t : Trace) → Ready o t → Ready o (e ∷ t)
    Ready-cons o e t (k, d) = (due-Keeps e t k, any-Keeps (is_durable o) e t d)

    persist_spend-Post :
        (p : PreparedTransaction) (w : World)
        → Good amount lock w.trace
        → due_seen w.trace ≡ true
        → Post amount lock Ready (persist_spend a refund p w)
    unfolding persist_spend
    persist_spend-Post p w g h =
        elim (Bool-cases
          (not (kind_eq p.outbox.kind claim) && not (kind_eq p.outbox.kind refund))) [
            | inl wrong ↦ rw wrong g
            | inr right ↦ rw right (
                bind-Post amount lock (λ _. Ready p.outbox) Ready (write_outbox a refund p.outbox w)
                  (λ _. pure p.outbox)
                  (write-Post amount lock a due_seen due-Keeps refund p.outbox w g h)
                  (λ _ v g q. (g, q)))
          ]

    validate_spend_outbox-same :
        (o v : FundingOutbox) (k : OutboxKind) (f : FundingEvidence)
        → validate_spend_outbox o k f ≡ ok v
        → o ≡ v
    unfolding validate_spend_outbox
    validate_spend_outbox-same o v k f h = ground arith

    refund_or_prepare-Post :
        (r : SwapRecoveryRecord) (f : FundingEvidence) (o : Option FundingOutbox) (w : World)
        → Good amount lock w.trace
        → Found amount lock due_seen refund o w.trace
        → Post amount lock Ready (refund_or_prepare a r f o w)
    unfolding refund_or_prepare
    refund_or_prepare-Post r f (some o) w g q =
        answer-Post amount lock Ready (validate_spend_outbox o refund f) w g
          (λ v e. rw (← validate_spend_outbox-same o v refund f e) q)
    refund_or_prepare-Post r f none w g (k, q) =
        bind-Post amount lock (λ _ t. due_seen t ≡ true) Ready _ _
          (call-Post amount lock (λ _ t. due_seen t ≡ true) (λ t. a.prepare_spend t r f refund)
            asked w g (λ _. due-Keeps asked w.trace k))
          persist_spend-Post

    retry_refund-Good :
        (o : FundingOutbox) (m : SwapResult RefundEvidence × World)
        → Good amount lock (m.1).trace
        → Post amount lock (λ _ _. Unit) (retry_refund a o m)
    unfolding retry_refund
    retry_refund-Good o (ok e, w) g = (g, tt)
    retry_refund-Good o (err e, w) g =
        bind-Post amount lock (λ _ _. Unit) (λ _ _. Unit) _ _
          (call-Post amount lock (λ _ _. Unit) (λ t. a.confirm_spend t o) asked w g (λ _. tt))
          (λ _ w g _.
            call-Post amount lock (λ _ _. Unit) (λ t. a.observe_refund t o) asked w g (λ _. tt))

    -- The broadcast is the only step that needs what was seen.
    broadcast-Post :
        (o : FundingOutbox) (w : World)
        → Good amount lock w.trace
        → Ready o w.trace
        → Post amount lock {A = Unit} (λ _ _. Unit) (broadcast_outbox a o w)
    unfolding broadcast_outbox
    broadcast-Post o w g (k, d) =
        call-Post amount lock (λ _ _. Unit) (λ t. a.broadcast_tx t o) (broadcast o) w
          (ground (arith, k, d, g)) (λ _. tt)

    pub send_refund-Post :
        (r : SwapRecoveryRecord) (f : FundingOutbox) (w : World)
        → Good amount lock w.trace
        → due_seen w.trace ≡ true
        → Post amount lock (λ _ _. Unit) (send_refund a r f w)
    unfolding send_refund
    send_refund-Post r f w g h =
        bind-Post amount lock (Found amount lock due_seen refund) (λ _ _. Unit) _ _
          (read-Post amount lock a due_seen due-Keeps refund w g h)
          (λ existing w g q.
            bind-Post amount lock Ready (λ _ _. Unit) _ _
              (refund_or_prepare-Post r (funding_of r f) existing w g q)
              (λ o w g q.
                bind-Post amount lock (λ _. Ready o) (λ _ _. Unit) _ _
                  (call-Post amount lock (λ _. Ready o) (λ t. a.on_phase t refunding)
                    (phase refunding) w g (λ _. Ready-cons o (phase refunding) w.trace q))
                  (λ _ w g q.
                    bind-Post amount lock (λ _ _. Unit) (λ _ _. Unit) _ _ (broadcast-Post o w g q)
                      (λ _ w g _.
                        bind-Post amount lock (λ _ _. Unit) (λ _ _. Unit) _ _
                          (retry_refund-Good o (call (λ t. a.observe_refund t o) asked w) g)
                          (λ _ w g _.
                            bind-Post amount lock (λ _ _. Unit) (λ _ _. Unit) _ _
                              (call-Post amount lock (λ _ _. Unit) (λ t. a.on_phase t refunded)
                                (phase refunded) w g (λ _. tt))
                              (λ _ w g _. (g, tt)))))))
