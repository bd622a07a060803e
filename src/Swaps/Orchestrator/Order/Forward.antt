-- ===== src/Swaps/Orchestrator/Order/Forward.antt =====
-- The order of effects in a run from Liquid to Lightning.
use cross_network_market_mak.Prelude.{ℕ, ◌≡◌, refl, true, any, Option, ok}
use cross_network_market_mak.Swaps.Effects.{
  ◌>>=◌, ◌>>◌, FundingEvidence, HoldInvoice, output_pending, output_settled, phase_settled,
  SwapTerms, SwapRecoveryRecord, Adapters, World, Trace, call, asked, lift,
}
use cross_network_market_mak.Swaps.Orchestrator.{
  SwapDirection, depix_to_lightning, CombinedSwapEvidence, check_forward_timing, validate_accepted,
  verify_payment_preimage, build_evidence, run_forward_after_invoice, on_phase, claim_or_replay,
  pay_if_open, settle_invoice, track_success,
}
use cross_network_market_mak.Swaps.Orchestrator.Order.{
  is_funded, is_claimed, is_paid_with, is_ordered, Triple, Stable, bind-Post, lift_triple,
}
use cross_network_market_mak.Swaps.Orchestrator.Order.Calls.{
  phase_kept, pay_if_open-Triple, settle_invoice-Triple, Tracked, track_success-Triple,
}
use cross_network_market_mak.Swaps.Orchestrator.Order.Funding.{prepare_or_replay_funding-Triple}
use cross_network_market_mak.Swaps.Orchestrator.Order.Claiming.{Claimed, claim_or_replay-Triple}
use cross_network_market_mak.Swaps.Orchestrator.Order.Rules.{
  Any, Any-Stable, And, And-Stable, Post-ordered, Post-ok, is_settled_recovery-Triple, Completed,
  plain_call, plain_lift, verified, Funds, Funds-Stable,
}

module _ (a : Adapters) (r : SwapRecoveryRecord) where
  abbrev Paid : Trace → Type 0
  Paid = And Funds (is_paid_with r.session.material.preimage)

  Paid-Stable : Stable Paid
  Paid-Stable = And-Stable Funds (is_paid_with r.session.material.preimage) Funds-Stable

  -- The claim, after the payment.
  forward_claim :
      (evidence : FundingEvidence) (expiry : Option ℕ)
      → Triple depix_to_lightning r.session.material.preimage Paid
          (do
            on_phase a output_settled
            claimed ← claim_or_replay a r evidence
            on_phase a phase_settled
            lift (build_evidence depix_to_lightning evidence claimed expiry))
          (Completed depix_to_lightning a r)
  forward_claim evidence expiry w h p =
      let d : SwapDirection = depix_to_lightning in
      let C : CombinedSwapEvidence → Trace → Type 0 = Completed d a r in
      bind-Post d r.session.material.preimage (λ _. Paid) C _ _
        (phase_kept d r.session.material.preimage a Paid Paid-Stable Paid output_settled Paid-Stable
          (λ t q. q.1) w h p)
        (λ _ w h p.
          bind-Post d r.session.material.preimage
            (Claimed d r.session.material.preimage a Paid Paid-Stable) C _ _
            (claim_or_replay-Triple d r.session.material.preimage a Paid Paid-Stable r evidence
              (λ t q. q.1) w h p)
            (λ claimed w h p.
              bind-Post d r.session.material.preimage (λ _. And Paid is_claimed) C _ _
                (phase_kept d r.session.material.preimage a Paid Paid-Stable (And Paid is_claimed)
                  phase_settled (And-Stable Paid is_claimed Paid-Stable) (λ t q. refl) w h p)
                (λ _.
                  lift_triple d r.session.material.preimage (And Paid is_claimed) C
                    (build_evidence d evidence claimed expiry) (λ e t _ q. (q.0.0.1, q.1, q.0.1)))))

  -- The payment, after the funding.
  forward_payment :
      (i : HoldInvoice) (terms : SwapTerms) (evidence : FundingEvidence)
      → Triple depix_to_lightning r.session.material.preimage Funds
          (do
            on_phase a output_pending
            pay_if_open a i r terms
            accepted_invoice ←
                call
                  (λ t. a.observe_accepted t r.session.material.hash_commitment terms.amount_sats)
                  asked
            tip ← call a.current_tip asked
            lift (validate_accepted accepted_invoice terms.amount_sats tip)
            settle_invoice a accepted_invoice r.session.material.preimage
            payment ← track_success a r.session.material.hash_commitment
            lift (verify_payment_preimage payment r.session.material.preimage)
            on_phase a output_settled
            claimed ← claim_or_replay a r evidence
            on_phase a phase_settled
            lift (
                build_evidence depix_to_lightning evidence claimed
                  accepted_invoice.accepted_expiry_height))
          (Completed depix_to_lightning a r)
  forward_payment i terms evidence w h p =
      let d : SwapDirection = depix_to_lightning in
      let C : CombinedSwapEvidence → Trace → Type 0 = Completed d a r in
      bind-Post d r.session.material.preimage (λ _. Funds) C _ _
        (phase_kept d r.session.material.preimage a Funds Funds-Stable Funds output_pending
          Funds-Stable (λ t q. refl) w h p)
        (λ _ w h p.
          bind-Post d r.session.material.preimage (λ _. Funds) C _ _
            (pay_if_open-Triple d r.session.material.preimage a Funds Funds-Stable i r terms w h p)
            (λ _ w h p.
              bind-Post d r.session.material.preimage (λ _. Funds) C _ _
                (plain_call d a r Funds Funds-Stable
                  (λ t. a.observe_accepted t r.session.material.hash_commitment terms.amount_sats) w
                  h p)
                (λ invoice w h p.
                  bind-Post d r.session.material.preimage (λ _. Funds) C _ _
                    (plain_call d a r Funds Funds-Stable a.current_tip w h p)
                    (λ tip w h p.
                      bind-Post d r.session.material.preimage (λ _. Funds) C _ _
                        (plain_lift d a r Funds Funds-Stable
                          (validate_accepted invoice terms.amount_sats tip) w h p)
                        (λ _ w h p.
                          bind-Post d r.session.material.preimage (λ _. Funds) C _ _
                            (settle_invoice-Triple d r.session.material.preimage a Funds
                              Funds-Stable invoice (λ t q. q.1) w h p)
                            (λ _ w h p.
                              bind-Post d r.session.material.preimage
                                (Tracked d r.session.material.preimage a Funds Funds-Stable) C _ _
                                (track_success-Triple d r.session.material.preimage a Funds
                                  Funds-Stable r.session.material.hash_commitment w h p)
                                (λ payment w h p.
                                  bind-Post d r.session.material.preimage (λ _. Paid) C _ _
                                    (verified d a r Funds Funds-Stable payment w h p)
                                    (λ _.
                                      forward_claim evidence invoice.accepted_expiry_height))))))))

  forward_run :
      (i : HoldInvoice) (terms : SwapTerms)
      → Triple depix_to_lightning r.session.material.preimage Any
          (run_forward_after_invoice a r i terms)
          (Completed depix_to_lightning a r)
  unfolding run_forward_after_invoice
  forward_run i terms w h p =
      let d : SwapDirection = depix_to_lightning in
      let C : CombinedSwapEvidence → Trace → Type 0 = Completed d a r in
      bind-Post d r.session.material.preimage (λ _. Any) C _ _
        (plain_call d a r Any Any-Stable a.current_height w h p)
        (λ height w h p.
          bind-Post d r.session.material.preimage (λ _. Any) C _ _
            (is_settled_recovery-Triple d a r i w h p)
            (λ skip w h p.
              bind-Post d r.session.material.preimage (λ _. Any) C _ _
                (plain_lift d a r Any Any-Stable (check_forward_timing a skip height r terms) w h p)
                (λ _ w h p.
                  bind-Post d r.session.material.preimage (λ _. Funds) C _ _
                    (prepare_or_replay_funding-Triple d r.session.material.preimage a Any Any-Stable
                      r terms w h p)
                    (forward_payment i terms))))

  -- In a forward run, from any trace that is in order, whatever the adapters answer and wherever the
  -- run fails: a transaction is broadcast only when its outbox is on disk; the hold invoice is
  -- settled only after the funding was observed on chain; the claim is broadcast, and the output
  -- reported as settled, only after the payer was seen to have paid with the preimage.
  pub run_forward-ordered :
      (i : HoldInvoice) (terms : SwapTerms) (w : World)
      → is_ordered depix_to_lightning r.session.material.preimage w.trace ≡ true
      → is_ordered depix_to_lightning r.session.material.preimage
          (run_forward_after_invoice a r i terms w).1.trace
        ≡ true
  run_forward-ordered i terms w h =
      Post-ordered depix_to_lightning r.session.material.preimage (Completed depix_to_lightning a r)
        (run_forward_after_invoice a r i terms w) (forward_run i terms w h tt)

  -- A forward run that succeeds, from a trace that is in order, has observed the funding and the
  -- claim on chain, and a payment that succeeded with the preimage.
  pub run_forward-completed :
      (i : HoldInvoice) (terms : SwapTerms) (w : World) (e : CombinedSwapEvidence)
      → is_ordered depix_to_lightning r.session.material.preimage w.trace ≡ true
      → (run_forward_after_invoice a r i terms w).0 ≡ ok e
      → (any is_funded (run_forward_after_invoice a r i terms w).1.trace ≡ true)
        × (any is_claimed (run_forward_after_invoice a r i terms w).1.trace ≡ true)
        × (any
              (is_paid_with r.session.material.preimage)
              (run_forward_after_invoice a r i terms w).1.trace
            ≡ true)
  run_forward-completed i terms w e h done =
      Post-ok depix_to_lightning r.session.material.preimage (Completed depix_to_lightning a r)
        (run_forward_after_invoice a r i terms w) e (forward_run i terms w h tt) done
