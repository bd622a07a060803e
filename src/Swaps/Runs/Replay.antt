-- ===== src/Swaps/Runs/Replay.antt =====
-- Looking up the invoice broadcasts and cancels nothing; a replay cancels nothing.
use cross_network_market_mak.Prelude.{
  ◌==◌, ◌≡◌, false, any, ◌||◌, Option, Result, ok, err, ok_or, reject_if, not, arith, Bool-cases,
  inl, inr,
}
use cross_network_market_mak.Prelude.Text.{Text}
use cross_network_market_mak.Core.Primitives.{Bytes}
use cross_network_market_mak.Lightning.Error.{LightningError, http}
use cross_network_market_mak.Swaps.Error.{SwapResult, durability, unknown}
use cross_network_market_mak.Swaps.Checks.{
  SwapDirection, validate_invoice_amount, validate_claim_outbox, validate_accepted,
  verify_payment_preimage, is_settled, has_succeeded,
}
use cross_network_market_mak.Swaps.Effects.{
  FundingOutbox, ClaimEvidence, HoldInvoice, output_settled, phase_settled, SwapTerms,
  SwapRecoveryRecord, SwapPhase, phase, broadcast, claim_observed, hold_settled, payment_tracked,
  asked, Adapters, World, Swap, bind_result,
}
use cross_network_market_mak.Swaps.Orchestrator.{
  on_phase, broadcast_outbox, observe_claim, retry_claim, settle_invoice, track_success,
}
use cross_network_market_mak.Swaps.Orchestrator.Exposure.{
  is_broadcast, is_canceled, After, answer-After, call-After, call_noting-After, bind_result-After,
}
use cross_network_market_mak.Swaps.Orchestrator.Exposure.Cancel.{Safe}
use cross_network_market_mak.Swaps.Runs.{ensure_found, ensure_invoice, finish_claim, replay_found}

-- Nothing was broadcast or canceled.
abbrev pub Calm : World → Type 0
Calm w = (any is_broadcast w.trace || any is_canceled w.trace) ≡ false

abbrev pub Uncanceled : World → Type 0
Uncanceled w = any is_canceled w.trace ≡ false

pub Calm-Uncanceled : (w : World) → Calm w → Uncanceled w
Calm-Uncanceled w h = ground arith

pub Uncanceled-Safe : (w : World) → Uncanceled w → Safe w
Uncanceled-Safe w h = ground arith

pub After-Safe : {A : Type 0} (m : SwapResult A × World) → After Uncanceled m → Safe m.1
After-Safe (ok v, w) h = Uncanceled-Safe w h
After-Safe (err e, w) h = Uncanceled-Safe w h

pub bind-Safe :
    {A B : Type 0} (m : SwapResult A × World) (f : A → Swap B)
    → After Calm m
    → ((v : A) (w : World) → Calm w → Safe (f v w).1)
    → Safe (bind_result m f).1
bind-Safe (ok v, w) f h k = k v w h
bind-Safe (err e, w) f h k = Uncanceled-Safe w (Calm-Uncanceled w h)

module _ (a : Adapters) where
  ensure_found-Calm :
      (found : Result LightningError HoldInvoice) (hash : Bytes) (terms : SwapTerms)
      (memo : Option Text) (w : World)
      → Calm w
      → After Calm (ensure_found a found hash terms memo w)
  unfolding ensure_found
  ensure_found-Calm (ok invoice) hash terms memo w h =
      bind_result-After Calm _ _
        (answer-After Calm (validate_invoice_amount invoice terms.amount_sats) w h) (λ _ w h. h)
  ensure_found-Calm (err (http status message)) hash terms memo w h =
      elim (Bool-cases (status == 404)) [
        | inl missing ↦
            rw missing (call-After Calm (λ t. a.create_hold_invoice t hash terms memo) asked w h)
        | inr other ↦ rw other h
      ]
  ensure_found-Calm (err _) hash terms memo w h = h

  pub ensure_invoice-Calm :
      (hash : Bytes) (terms : SwapTerms) (memo : Option Text) (w : World)
      → Calm w
      → After Calm (ensure_invoice a hash terms memo w)
  unfolding ensure_invoice
  ensure_invoice-Calm hash terms memo w h =
      ensure_found-Calm (a.lookup_invoice w.trace hash) hash terms memo _ h

  retry_claim-Uncanceled :
      (r : SwapRecoveryRecord) (o : FundingOutbox) (m : SwapResult ClaimEvidence × World)
      → After Uncanceled m
      → After Uncanceled (retry_claim a r o m)
  unfolding retry_claim
  retry_claim-Uncanceled r o (ok c, w) h = h
  retry_claim-Uncanceled r o (err e, w) h =
      bind_result-After Uncanceled _ _ (call-After Uncanceled (λ t. a.confirm_spend t o) asked w h)
        (λ _ w h.
          call_noting-After Uncanceled (λ t. a.observe_claim t r o r.session.material.preimage)
            claim_observed w (λ _. h))

  settle_invoice-Uncanceled :
      (i : HoldInvoice) (x : Bytes) (w : World)
      → Uncanceled w
      → After Uncanceled (settle_invoice a i x w)
  unfolding settle_invoice
  settle_invoice-Uncanceled i x w h = elim (Bool-cases (is_settled i)) [
    | inl done ↦ rw done h
    | inr pending ↦
        rw pending
          (call-After Uncanceled (λ t. a.settle_hold t i.payment_hash x) (hold_settled x) w h)
  ]

  track_success-Uncanceled :
      (hash : Bytes) (w : World) → Uncanceled w → After Uncanceled (track_success a hash w)
  unfolding track_success
  track_success-Uncanceled hash w h =
      bind_result-After Uncanceled _ _
        (call_noting-After Uncanceled (λ t. a.track_by_hash t hash) payment_tracked w (λ _. h))
        (λ o w h.
          bind_result-After Uncanceled _ _
            (answer-After Uncanceled
              (reject_if (not (has_succeeded o)) (unknown "Lightning payment ended in {:?}")) w h)
            (λ _ w h. h))

  phase-Uncanceled : (p : SwapPhase) (w : World) → Uncanceled w → After Uncanceled (on_phase a p w)
  phase-Uncanceled p w h = call-After Uncanceled (λ t. a.on_phase t p) (phase p) w h

  -- What is replayed after the claim was seen.
  replay_tail :
      (r : SwapRecoveryRecord) (d : SwapDirection) (o : FundingOutbox) (c : ClaimEvidence)
      (w : World)
      → Uncanceled w
      → After Uncanceled (finish_claim a r d o c w)
  unfolding finish_claim
  replay_tail r d o c w h =
      bind_result-After Uncanceled _ _
        (call-After Uncanceled
          (λ t. a.observe_accepted t r.session.material.hash_commitment r.session.amount_sats) asked
          w h)
        (λ i w h.
          bind_result-After Uncanceled _ _ (call-After Uncanceled a.current_tip asked w h)
            (λ tip w h.
              bind_result-After Uncanceled _ _
                (answer-After Uncanceled (validate_accepted i r.session.amount_sats tip) w h)
                (λ _ w h.
                  bind_result-After Uncanceled _ _
                    (settle_invoice-Uncanceled i r.session.material.preimage w h)
                    (λ _ w h.
                      bind_result-After Uncanceled _ _
                        (track_success-Uncanceled r.session.material.hash_commitment w h)
                        (λ payment w h.
                          bind_result-After Uncanceled _ _
                            (answer-After Uncanceled
                              (verify_payment_preimage payment r.session.material.preimage) w h)
                            (λ _ w h.
                              bind_result-After Uncanceled _ _ (phase-Uncanceled output_settled w h)
                                (λ _ w h.
                                  bind_result-After Uncanceled _ _
                                    (phase-Uncanceled phase_settled w h)
                                    (λ _ w h.
                                      bind_result-After Uncanceled _ _
                                        (answer-After Uncanceled
                                          (ok_or o.funding_txid
                                            (durability "claim outbox lacks funding txid"))
                                          w h)
                                        (λ _ w h. h)))))))))

  pub replay_found-Uncanceled :
      (r : SwapRecoveryRecord) (d : SwapDirection) (o : FundingOutbox) (w : World)
      → Uncanceled w
      → After Uncanceled (replay_found a r d o w)
  unfolding replay_found broadcast_outbox
  replay_found-Uncanceled r d o w h =
      bind_result-After Uncanceled _ _ (answer-After Uncanceled (validate_claim_outbox o) w h)
        (λ o w h.
          bind_result-After Uncanceled _ _
            (call-After Uncanceled (λ t. a.broadcast_tx t o) (broadcast o) w h)
            (λ _ w h.
              bind_result-After Uncanceled _ _
                (retry_claim-Uncanceled r o (observe_claim a r o w) (
                  call_noting-After Uncanceled
                    (λ t. a.observe_claim t r o r.session.material.preimage) claim_observed w
                    (λ _. h)))
                (λ c w h. replay_tail r d o c w h)))
