-- ===== src/Swaps/Orchestrator/Exposure/Legs.antt =====
-- The chain legs broadcast only what is marked as exposed.
use cross_network_market_mak.Prelude.{
  true, not, ◌&&◌, Option, none, some, ok, err, Bool-cases, inl, inr,
}
use cross_network_market_mak.Swaps.Error.{SwapResult}
use cross_network_market_mak.Swaps.Effects.{
  funding, claim, refund, FundingOutbox, FundingEvidence, ClaimEvidence, SwapTerms,
  SwapRecoveryRecord, broadcast, Adapters, World, write_outbox, PreparedTransaction, kind_eq, call,
  note, pure, asked, phase, SwapPhase, input_funding, input_locked, claim_pending, funding_observed,
  claim_observed,
}
use cross_network_market_mak.Swaps.Orchestrator.{
  persist_funding, persist_spend, funding_or_prepare, claim_or_prepare, retry_funding, retry_claim,
  broadcast_outbox, prepare_or_replay_funding, claim_or_replay, validate_funding_outbox,
  validate_spend_outbox, observe_funding, observe_claim, on_phase, or_zero,
}
use cross_network_market_mak.Swaps.Orchestrator.Exposure.{
  Quiet, Exposed, After, marked-Exposed, After-Quiet, answer-After, call-After, call_noting-After,
  bind_result-After, read-Quiet, write-Quiet,
}

module _ (a : Adapters) where
  persist_funding-Quiet :
      (t : PreparedTransaction) (w : World) → Quiet w → After Quiet (persist_funding a t w)
  unfolding persist_funding
  persist_funding-Quiet t w q = elim (Bool-cases (kind_eq t.outbox.kind funding)) [
    | inr other ↦ rw other q
    | inl right ↦
        let o : FundingOutbox = record t.outbox { funding_vout = t.funding_vout } in
        rw right (
          bind_result-After Quiet (write_outbox a funding o w) (λ _. pure o)
            (write-Quiet a funding o w q) (λ _ w q. q))
  ]

  persist_spend-Quiet :
      (t : PreparedTransaction) (w : World) → Quiet w → After Quiet (persist_spend a claim t w)
  unfolding persist_spend
  persist_spend-Quiet t w q =
      elim (Bool-cases (not (kind_eq t.outbox.kind claim) && not (kind_eq t.outbox.kind refund))) [
        | inl other ↦ rw other q
        | inr right ↦ rw right (
            bind_result-After Quiet (write_outbox a claim t.outbox w) (λ _. pure t.outbox)
              (write-Quiet a claim t.outbox w q) (λ _ w q. q))
      ]

  funding_or_prepare-Quiet :
      (r : SwapRecoveryRecord) (terms : SwapTerms) (o : Option FundingOutbox) (w : World)
      → Quiet w
      → After Quiet (funding_or_prepare a r terms o w)
  unfolding funding_or_prepare
  funding_or_prepare-Quiet r terms (some o) w q = answer-After Quiet (validate_funding_outbox o) w q
  funding_or_prepare-Quiet r terms none w q =
      bind_result-After Quiet _ _ (call-After Quiet (λ t. a.prepare_funding t r terms) asked w q)
        persist_funding-Quiet

  claim_or_prepare-Quiet :
      (r : SwapRecoveryRecord) (f : FundingEvidence) (o : Option FundingOutbox) (w : World)
      → Quiet w
      → After Quiet (claim_or_prepare a r f o w)
  unfolding claim_or_prepare
  claim_or_prepare-Quiet r f (some o) w q = answer-After Quiet (validate_spend_outbox o claim f) w q
  claim_or_prepare-Quiet r f none w q =
      bind_result-After Quiet _ _ (call-After Quiet (λ t. a.prepare_spend t r f claim) asked w q)
        persist_spend-Quiet

  observe_funding-Exposed :
      (r : SwapRecoveryRecord) (terms : SwapTerms) (o : FundingOutbox) (w : World)
      → Exposed w
      → After Exposed (observe_funding a r terms o w)
  observe_funding-Exposed r terms o w q =
      call_noting-After Exposed
        (λ t. a.observe_funding t r o.txid (or_zero o.funding_vout) terms.asset_amount_sats)
        funding_observed w (λ _. q)

  observe_claim-Exposed :
      (r : SwapRecoveryRecord) (o : FundingOutbox) (w : World)
      → Exposed w
      → After Exposed (observe_claim a r o w)
  observe_claim-Exposed r o w q =
      call_noting-After Exposed (λ t. a.observe_claim t r o r.session.material.preimage)
        claim_observed w (λ _. q)

  pub phase_kept :
      (K : World → Type 0) (s : SwapPhase) (w : World)
      → K (note (phase s) w)
      → After K (on_phase a s w)
  phase_kept K s w q = call-After K (λ t. a.on_phase t s) (phase s) w q

  broadcast-Exposed :
      (o : FundingOutbox) (w : World) → Exposed w → After Exposed (broadcast_outbox a o w)
  unfolding broadcast_outbox
  broadcast-Exposed o w q = call-After Exposed (λ t. a.broadcast_tx t o) (broadcast o) w q

  retry_funding-Exposed :
      (r : SwapRecoveryRecord) (terms : SwapTerms) (o : FundingOutbox)
      (m : SwapResult FundingEvidence × World)
      → After Exposed m
      → After Exposed (retry_funding a r terms o m)
  unfolding retry_funding
  retry_funding-Exposed r terms o (ok f, w) q = q
  retry_funding-Exposed r terms o (err e, w) q =
      bind_result-After Exposed (call (λ t. a.confirm_funding t r o) asked w)
        (λ _. observe_funding a r terms o)
        (call-After Exposed (λ t. a.confirm_funding t r o) asked w q)
        (λ _. observe_funding-Exposed r terms o)

  retry_claim-Exposed :
      (r : SwapRecoveryRecord) (o : FundingOutbox) (m : SwapResult ClaimEvidence × World)
      → After Exposed m
      → After Exposed (retry_claim a r o m)
  unfolding retry_claim
  retry_claim-Exposed r o (ok c, w) q = q
  retry_claim-Exposed r o (err e, w) q =
      bind_result-After Exposed (call (λ t. a.confirm_spend t o) asked w) (λ _. observe_claim a r o)
        (call-After Exposed (λ t. a.confirm_spend t o) asked w q) (λ _. observe_claim-Exposed r o)

  pub prepare_or_replay_funding-Quiet :
      (r : SwapRecoveryRecord) (terms : SwapTerms) (w : World)
      → Quiet w
      → After Quiet (prepare_or_replay_funding a r terms w)
  unfolding prepare_or_replay_funding
  prepare_or_replay_funding-Quiet r terms w q =
      bind_result-After Quiet _ _ (read-Quiet a funding w q) (λ existing w q.
        bind_result-After Quiet _ _ (funding_or_prepare-Quiet r terms existing w q) (λ o w q.
          After-Quiet _ (
            bind_result-After Exposed _ _
              (phase_kept Exposed input_funding (record w { funding_exposed = true })
                (marked-Exposed w q))
              (λ _ w q. bind_result-After Exposed _ _ (broadcast-Exposed o w q) (λ _ w q.
                bind_result-After Exposed _ _
                  (retry_funding-Exposed r terms o (observe_funding a r terms o w)
                    (observe_funding-Exposed r terms o w q))
                  (λ f w q.
                    bind_result-After Exposed _ _ (phase_kept Exposed input_locked w q)
                      (λ _ w q. q)))))))

  pub claim_or_replay-Quiet :
      (r : SwapRecoveryRecord) (f : FundingEvidence) (w : World)
      → Quiet w
      → After Quiet (claim_or_replay a r f w)
  unfolding claim_or_replay
  claim_or_replay-Quiet r f w q =
      bind_result-After Quiet _ _ (read-Quiet a claim w q) (λ existing w q.
        bind_result-After Quiet _ _ (claim_or_prepare-Quiet r f existing w q) (λ o w q.
          After-Quiet _ (
            bind_result-After Exposed _ _
              (phase_kept Exposed claim_pending (record w { funding_exposed = true })
                (marked-Exposed w q))
              (λ _ w q. bind_result-After Exposed _ _ (broadcast-Exposed o w q) (λ _ w q.
                retry_claim-Exposed r o (observe_claim a r o w) (observe_claim-Exposed r o w q))))))
