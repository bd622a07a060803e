-- ===== src/Swaps/Orchestrator/Order/Reverse.antt =====
-- The order of effects in a run from Lightning to Liquid.
use cross_network_market_mak.Prelude.{ℕ, ◌≡◌, refl, true, any, ok}
use cross_network_market_mak.Swaps.Effects.{
  ◌>>=◌, ◌>>◌, FundingEvidence, ClaimEvidence, HoldInvoice, output_pending, output_settled,
  phase_settled, SwapTerms, SwapRecoveryRecord, Adapters, World, Trace, lift,
}
use cross_network_market_mak.Swaps.Orchestrator.{
  SwapDirection, lightning_to_depix, CombinedSwapEvidence, check_reverse_timing, validate_accepted,
  verify_payment_preimage, build_evidence, run_reverse_after_invoice, on_phase, claim_or_replay,
  settle_invoice, track_success, prepare_or_replay_funding,
}
use cross_network_market_mak.Swaps.Orchestrator.Order.{
  is_funded, is_claimed, is_paid_with, is_ordered, Triple, Stable, bind-Post, lift_triple,
}
use cross_network_market_mak.Swaps.Orchestrator.Order.Calls.{
  phase_kept, pay_if_open-Triple, settle_invoice-Triple, Tracked, track_success-Triple,
}
use cross_network_market_mak.Swaps.Orchestrator.Order.Funding.{prepare_or_replay_funding-Triple}
use cross_network_market_mak.Swaps.Orchestrator.Order.Claiming.{claim_or_replay-Triple}
use cross_network_market_mak.Swaps.Orchestrator.Order.Rules.{
  Any, Any-Stable, And, And-Stable, Post-ordered, Post-ok, Completed, plain_call, plain_lift,
  verified, Funds, Funds-Stable,
}

module _ (a : Adapters) (r : SwapRecoveryRecord) where
  abbrev Claims : Trace → Type 0
  Claims = And Funds is_claimed

  Claims-Stable : Stable Claims
  Claims-Stable = And-Stable Funds is_claimed Funds-Stable

  abbrev Paid : Trace → Type 0
  Paid = And Claims (is_paid_with r.session.material.preimage)

  Paid-Stable : Stable Paid
  Paid-Stable = And-Stable Claims (is_paid_with r.session.material.preimage) Claims-Stable

  -- The settlement, after the claim.
  reverse_settlement :
      (invoice : HoldInvoice) (evidence : FundingEvidence) (claimed : ClaimEvidence)
      → Triple lightning_to_depix r.session.material.preimage Claims
          (do
            settle_invoice a invoice r.session.material.preimage
            payment ← track_success a r.session.material.hash_commitment
            lift (verify_payment_preimage payment r.session.material.preimage)
            on_phase a output_settled
            on_phase a phase_settled
            lift
                (build_evidence lightning_to_depix evidence claimed invoice.accepted_expiry_height))
          (Completed lightning_to_depix a r)
  reverse_settlement invoice evidence claimed w h p =
      let d : SwapDirection = lightning_to_depix in
      let C : CombinedSwapEvidence → Trace → Type 0 = Completed d a r in
      bind-Post d r.session.material.preimage (λ _. Claims) C _ _
        (settle_invoice-Triple d r.session.material.preimage a Claims Claims-Stable invoice
          (λ t q. q.1) w h p)
        (λ _ w h p.
          bind-Post d r.session.material.preimage
            (Tracked d r.session.material.preimage a Claims Claims-Stable) C _ _
            (track_success-Triple d r.session.material.preimage a Claims Claims-Stable
              r.session.material.hash_commitment w h p)
            (λ payment w h p.
              bind-Post d r.session.material.preimage (λ _. Paid) C _ _
                (verified d a r Claims Claims-Stable payment w h p)
                (λ _ w h p.
                  bind-Post d r.session.material.preimage (λ _. Paid) C _ _
                    (phase_kept d r.session.material.preimage a Paid Paid-Stable Paid output_settled
                      Paid-Stable (λ t q. q.1) w h p)
                    (λ _ w h p.
                      bind-Post d r.session.material.preimage (λ _. Paid) C _ _
                        (phase_kept d r.session.material.preimage a Paid Paid-Stable Paid
                          phase_settled Paid-Stable (λ t q. refl) w h p)
                        (λ _.
                          lift_triple d r.session.material.preimage Paid C
                            (build_evidence d evidence claimed invoice.accepted_expiry_height)
                            (λ e t _ q. (q.0.0.1, q.0.1, q.1)))))))

  -- The funding and the claim, after the payment was accepted.
  reverse_claim :
      (invoice : HoldInvoice) (terms : SwapTerms) (tip height : ℕ)
      → Triple lightning_to_depix r.session.material.preimage Any
          (do
            lift (check_reverse_timing a tip height invoice r terms)
            evidence ← prepare_or_replay_funding a r terms
            claimed ← claim_or_replay a r evidence
            settle_invoice a invoice r.session.material.preimage
            payment ← track_success a r.session.material.hash_commitment
            lift (verify_payment_preimage payment r.session.material.preimage)
            on_phase a output_settled
            on_phase a phase_settled
            lift
                (build_evidence lightning_to_depix evidence claimed invoice.accepted_expiry_height))
          (Completed lightning_to_depix a r)
  reverse_claim invoice terms tip height w h p =
      let d : SwapDirection = lightning_to_depix in
      let C : CombinedSwapEvidence → Trace → Type 0 = Completed d a r in
      bind-Post d r.session.material.preimage (λ _. Any) C _ _
        (plain_lift d a r Any Any-Stable (check_reverse_timing a tip height invoice r terms) w h p)
        (λ _ w h p.
          bind-Post d r.session.material.preimage (λ _. Funds) C _ _
            (prepare_or_replay_funding-Triple d r.session.material.preimage a Any Any-Stable r terms
              w h p)
            (λ evidence w h p.
              bind-Post d r.session.material.preimage (λ _. Claims) C _ _
                (claim_or_replay-Triple d r.session.material.preimage a Funds Funds-Stable r
                  evidence (λ t q. q.1) w h p)
                (λ claimed. reverse_settlement invoice evidence claimed)))

  reverse_run :
      (i : HoldInvoice) (terms : SwapTerms)
      → Triple lightning_to_depix r.session.material.preimage Any
          (run_reverse_after_invoice a r i terms)
          (Completed lightning_to_depix a r)
  unfolding run_reverse_after_invoice
  reverse_run i terms w h p =
      let d : SwapDirection = lightning_to_depix in
      let C : CombinedSwapEvidence → Trace → Type 0 = Completed d a r in
      bind-Post d r.session.material.preimage (λ _. Any) C _ _
        (phase_kept d r.session.material.preimage a Any Any-Stable Any output_pending Any-Stable
          (λ t q. refl) w h p)
        (λ _ w h p.
          bind-Post d r.session.material.preimage (λ _. Any) C _ _
            (pay_if_open-Triple d r.session.material.preimage a Any Any-Stable i r terms w h p)
            (λ _ w h p.
              bind-Post d r.session.material.preimage (λ _. Any) C _ _
                (plain_call d a r Any Any-Stable
                  (λ t. a.observe_accepted t r.session.material.hash_commitment terms.amount_sats) w
                  h p)
                (λ invoice w h p.
                  bind-Post d r.session.material.preimage (λ _. Any) C _ _
                    (plain_call d a r Any Any-Stable a.current_tip w h p)
                    (λ tip w h p.
                      bind-Post d r.session.material.preimage (λ _. Any) C _ _
                        (plain_lift d a r Any Any-Stable
                          (validate_accepted invoice terms.amount_sats tip) w h p)
                        (λ _ w h p.
                          bind-Post d r.session.material.preimage (λ _. Any) C _ _
                            (plain_call d a r Any Any-Stable a.current_height w h p)
                            (λ height. reverse_claim invoice terms tip height))))))

  -- In a reverse run, from any trace that is in order, whatever the adapters answer and wherever the
  -- run fails: a transaction is broadcast only when its outbox is on disk; the claim is broadcast
  -- only after the funding was observed on chain; the hold invoice is settled only after the claim
  -- was observed on chain; the output is reported as settled only after the payer was seen to have
  -- paid with the preimage.
  pub run_reverse-ordered :
      (i : HoldInvoice) (terms : SwapTerms) (w : World)
      → is_ordered lightning_to_depix r.session.material.preimage w.trace ≡ true
      → is_ordered lightning_to_depix r.session.material.preimage
          (run_reverse_after_invoice a r i terms w).1.trace
        ≡ true
  run_reverse-ordered i terms w h =
      Post-ordered lightning_to_depix r.session.material.preimage (Completed lightning_to_depix a r)
        (run_reverse_after_invoice a r i terms w) (reverse_run i terms w h tt)

  -- A reverse run that succeeds, from a trace that is in order, has observed the funding and the
  -- claim on chain, and a payment that succeeded with the preimage.
  pub run_reverse-completed :
      (i : HoldInvoice) (terms : SwapTerms) (w : World) (e : CombinedSwapEvidence)
      → is_ordered lightning_to_depix r.session.material.preimage w.trace ≡ true
      → (run_reverse_after_invoice a r i terms w).0 ≡ ok e
      → (any is_funded (run_reverse_after_invoice a r i terms w).1.trace ≡ true)
        × (any is_claimed (run_reverse_after_invoice a r i terms w).1.trace ≡ true)
        × (any
              (is_paid_with r.session.material.preimage)
              (run_reverse_after_invoice a r i terms w).1.trace
            ≡ true)
  run_reverse-completed i terms w e h done =
      Post-ok lightning_to_depix r.session.material.preimage (Completed lightning_to_depix a r)
        (run_reverse_after_invoice a r i terms w) e (reverse_run i terms w h tt) done
