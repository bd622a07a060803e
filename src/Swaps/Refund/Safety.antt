-- ===== src/Swaps/Refund/Safety.antt =====
-- A refund is broadcast only when the payment has failed and nothing can be claimed any more.
use cross_network_market_mak.Prelude.{
  ℕ, ltb, leb, ◌==◌, ◌≡◌, refl, Bool, true, false, not, any, Option, none, some, ok, err, ok_or,
  reject_if, arith, Bool-cases, inl, inr, reject_if-ok,
}
use cross_network_market_mak.Core.Endpoint.{is_none}
use cross_network_market_mak.Swaps.Error.{SwapResult, recovery_mismatch, chain, unknown}
use cross_network_market_mak.Swaps.Checks.{has_failed, of_lightning}
use cross_network_market_mak.Swaps.Effects.{
  funding, claim, FundingOutbox, SwapRecoveryRecord, payment_tracked, invoice_seen, height_seen,
  Trace, Adapters, World,
}
use cross_network_market_mak.Swaps.Refund.{
  check_record, is_canceled_with, refund_if_due, refund_if_funded, refund_if_canceled,
  refund_if_failed, refund_funded_swap_with_observer,
}
use cross_network_market_mak.Swaps.Refund.Rules.{
  is_due, refunds_checked, Good, Post, bind-Post, answer-Post, noting-Post, Found, read-Post,
}
use cross_network_market_mak.Swaps.Refund.Sending.{
  failed_seen, canceled_seen, unclaimed_seen, due_seen, canceled-Keeps, unclaimed-Keeps,
  send_refund-Post,
}

negated : (b : Bool) → not b ≡ false → b ≡ true
negated b h = ground arith

missing_of : (o : Option FundingOutbox) → not (is_none o) ≡ false → o ≡ none
missing_of none h = refl
missing_of (some o) h = cc

module _ (amount lock : ℕ) where
  module _ (a : Adapters) where
    refund_if_due-Post :
        (r : SwapRecoveryRecord) (f : FundingOutbox) (w : World)
        → r.contract.refund_lock_height ≡ lock
        → Good amount lock w.trace
        → (unclaimed_seen amount lock) w.trace ≡ true
        → Post amount lock (λ _ _. Unit) (refund_if_due a r f w)
    unfolding refund_if_due
    refund_if_due-Post r f w same g h =
        bind-Post amount lock
          (λ height t.
            ((unclaimed_seen amount lock) t ≡ true)
            × (leb lock height ≡ true → any (is_due lock) t ≡ true))
          (λ _ _. Unit) _ _
          (noting-Post amount lock _ a.current_height height_seen w (λ _. g)
            (λ height. (
              (unclaimed-Keeps amount lock) (height_seen (some height)) w.trace h,
              λ due. rw due refl,
            )))
          (λ height w g (k, due).
            bind-Post amount lock (λ _ t. (due_seen amount lock) t ≡ true) (λ _ _. Unit) _ _
              (answer-Post amount lock _
                (reject_if (ltb height r.contract.refund_lock_height)
                  (chain "refund is early at height {height}; requires {}"))
                w g (λ _ e. ground (arith, k, due (ground (arith, same, reject_if-ok _ _ e)))))
              (λ _ w g k. send_refund-Post amount lock a r f w g k))

    Found-kept :
        (o : Option FundingOutbox) (t : Trace)
        → Found amount lock (unclaimed_seen amount lock) funding o t
        → (unclaimed_seen amount lock) t ≡ true
    Found-kept none t q = q.0
    Found-kept (some o) t q = q.0

    refund_if_funded-Post :
        (r : SwapRecoveryRecord) (w : World)
        → r.contract.refund_lock_height ≡ lock
        → Good amount lock w.trace
        → (unclaimed_seen amount lock) w.trace ≡ true
        → Post amount lock (λ _ _. Unit) (refund_if_funded a r w)
    unfolding refund_if_funded
    refund_if_funded-Post r w same g h =
        bind-Post amount lock (Found amount lock (unclaimed_seen amount lock) funding) (λ _ _. Unit)
          _ _
          (read-Post amount lock a (unclaimed_seen amount lock) (unclaimed-Keeps amount lock)
            funding w g h)
          (λ funded w g q.
            bind-Post amount lock (λ _ t. (unclaimed_seen amount lock) t ≡ true) (λ _ _. Unit) _ _
              (answer-Post amount lock _ (ok_or funded (unknown "funding outbox is missing")) w g
                (λ _ _. Found-kept funded w.trace q))
              (λ f w g k. refund_if_due-Post r f w same g k))

    claim_missing :
        (o : Option FundingOutbox) (t : Trace)
        → o ≡ none
        → Found amount lock (canceled_seen amount lock) claim o t
        → (unclaimed_seen amount lock) t ≡ true
    claim_missing none t e q = ground (arith, q.0, q.1)
    claim_missing (some o) t e q = cc

    refund_if_canceled-Post :
        (r : SwapRecoveryRecord) (w : World)
        → r.contract.refund_lock_height ≡ lock
        → Good amount lock w.trace
        → (failed_seen amount lock) w.trace ≡ true
        → Post amount lock (λ _ _. Unit) (refund_if_canceled a amount r w)
    unfolding refund_if_canceled
    refund_if_canceled-Post r w same g h =
        bind-Post amount lock
          (λ i t. is_canceled_with amount i ≡ true → (canceled_seen amount lock) t ≡ true)
          (λ _ _. Unit) _ _
          (noting-Post amount lock _
            (λ t. of_lightning (a.lookup_invoice t r.session.material.hash_commitment)) invoice_seen
            w (λ _. g) (λ i is_so. rw is_so (ground (arith, h))))
          (λ i w g seen.
            bind-Post amount lock (λ _ t. (canceled_seen amount lock) t ≡ true) (λ _ _. Unit) _ _
              (answer-Post amount lock _
                (reject_if (not (is_canceled_with amount i))
                  (unknown "refund requires a canceled hold invoice with the quoted amount"))
                w g (λ _ e. seen (negated (is_canceled_with amount i) (reject_if-ok _ _ e))))
              (λ _ w g k.
                bind-Post amount lock (Found amount lock (canceled_seen amount lock) claim)
                  (λ _ _. Unit) _ _
                  (read-Post amount lock a (canceled_seen amount lock) (canceled-Keeps amount lock)
                    claim w g k)
                  (λ claimed w g q.
                    bind-Post amount lock (λ _ t. (unclaimed_seen amount lock) t ≡ true)
                      (λ _ _. Unit) _ _
                      (answer-Post amount lock _
                        (reject_if (not (is_none claimed))
                          (recovery_mismatch "a claim outbox exists; refund is no longer safe"))
                        w g
                        (λ _ e.
                          claim_missing claimed w.trace (missing_of claimed (reject_if-ok _ _ e))
                            q))
                      (λ _ w g k. refund_if_funded-Post r w same g k))))

    refund_if_failed-Post :
        (r : SwapRecoveryRecord) (w : World)
        → r.contract.refund_lock_height ≡ lock
        → Good amount lock w.trace
        → Post amount lock (λ _ _. Unit) (refund_if_failed a amount r w)
    unfolding refund_if_failed
    refund_if_failed-Post r w same g =
        bind-Post amount lock (λ o t. has_failed o ≡ true → (failed_seen amount lock) t ≡ true)
          (λ _ _. Unit) _ _
          (noting-Post amount lock _ (λ t. a.track_by_hash t r.session.material.hash_commitment)
            payment_tracked w (λ _. g) (λ o failed. rw failed refl))
          (λ o w g seen.
            bind-Post amount lock (λ _ t. (failed_seen amount lock) t ≡ true) (λ _ _. Unit) _ _
              (answer-Post amount lock _
                (reject_if (not (has_failed o))
                  (unknown "refund requires a terminal failed Lightning payment"))
                w g (λ _ e. seen (negated (has_failed o) (reject_if-ok _ _ e))))
              (λ _ w g k. refund_if_canceled-Post r w same g k))

    Post-Good :
        {A : Type 0} (m : SwapResult A × World)
        → Post amount lock (λ _ _. Unit) m
        → Good amount lock (m.1).trace
    Post-Good (ok v, w) h = h.0
    Post-Good (err e, w) h = h

    refund_loaded :
        (recovery : SwapResult (Option SwapRecoveryRecord)) (w : World)
        → ((r : SwapRecoveryRecord) → recovery ≡ ok (some r) → r.contract.refund_lock_height ≡ lock)
        → Good amount lock w.trace
        → Good amount lock (refund_funded_swap_with_observer a recovery amount w).1.trace
    unfolding refund_funded_swap_with_observer check_record
    refund_loaded (err e) w same g = g
    refund_loaded (ok none) w same g = g
    refund_loaded (ok (some r)) w same g = elim (Bool-cases (r.session.amount_sats == amount)) [
      | inl equal ↦ rw equal (Post-Good _ (refund_if_failed-Post r w (same r refl) g))
      | inr other ↦ rw other g
    ]

-- A refund run, whatever the adapters answer and wherever it stops, broadcasts a transaction only after
-- the payer's payment was seen failed, the hold invoice was seen canceled with the quoted amount accepted
-- before, the claim outbox was looked for and none was found, the chain was seen at the refund height of
-- the recovery record or above, and the outbox is on disk; if that held of what was broadcast before.
pub refund_funded_swap-checked :
    (a : Adapters) (recovery : SwapResult (Option SwapRecoveryRecord)) (amount lock : ℕ) (w : World)
    → ((r : SwapRecoveryRecord) → recovery ≡ ok (some r) → r.contract.refund_lock_height ≡ lock)
    → refunds_checked amount lock w.trace ≡ true
    → refunds_checked amount lock (refund_funded_swap_with_observer a recovery amount w).1.trace
      ≡ true
refund_funded_swap-checked a recovery amount lock w same g =
    refund_loaded amount lock a recovery w same g
