-- ===== src/Swaps/Orchestrator/Exposure/Cancel.antt =====
-- The hold invoice is canceled only by a run that has broadcast nothing.
use cross_network_market_mak.Prelude.{
  ◌≡◌, refl, Bool, true, false, not, ◌&&◌, any, Option, none, some, ok, err, arith, Bool-cases, inl,
  inr, if◌then◌else◌,
}
use cross_network_market_mak.Core.Endpoint.{is_none}
use cross_network_market_mak.Swaps.Error.{SwapError, SwapResult}
use cross_network_market_mak.Swaps.Effects.{
  funding, HoldInvoice, SwapTerms, SwapRecoveryRecord, outbox_read, Adapters, World, Swap,
  bind_result, file, read_or_fail, read_outbox, note, asked, output_pending, output_settled,
  phase_settled,
}
use cross_network_market_mak.Swaps.Orchestrator.{
  is_accepted, run_forward_after_invoice, cancel_if_accepted, run_and_cancel, cancel_answered,
  cancel_unexposed, set_exposed, check_forward_timing, check_reverse_timing,
  run_reverse_after_invoice, lightning_to_depix, CombinedSwapEvidence, validate_accepted,
  verify_payment_preimage, build_evidence, depix_to_lightning,
}
use cross_network_market_mak.Swaps.Orchestrator.Exposure.{
  is_broadcast, is_canceled, Quiet, After, answer-After, call-After, bind_result-After,
}
use cross_network_market_mak.Swaps.Orchestrator.Exposure.Legs.{
  phase_kept, prepare_or_replay_funding-Quiet, claim_or_replay-Quiet,
}
use cross_network_market_mak.Swaps.Orchestrator.Exposure.Payment.{
  pay_if_open-Quiet, settle_invoice-Quiet, track_success-Quiet, is_settled_recovery-Quiet,
}

-- The invoice was not canceled, or nothing was broadcast.
abbrev pub Safe : World → Type 0
Safe w = (any is_canceled w.trace && any is_broadcast w.trace) ≡ false

exposed_or_canceled-Safe :
    (b : Bool) (exposed canceled : World)
    → (b ≡ true → Safe exposed)
    → (b ≡ false → Safe canceled)
    → Safe (if b then exposed else canceled)
exposed_or_canceled-Safe true w v h k = h refl
exposed_or_canceled-Safe false w v h k = k refl

module _ (a : Adapters) where
  pub run_forward-Quiet :
      (r : SwapRecoveryRecord) (i : HoldInvoice) (terms : SwapTerms) (w : World)
      → Quiet w
      → After Quiet (run_forward_after_invoice a r i terms w)
  unfolding run_forward_after_invoice
  run_forward-Quiet r i terms w q =
      bind_result-After Quiet _ _ (call-After Quiet a.current_height asked w q) (λ height w q.
        bind_result-After Quiet _ _ (is_settled_recovery-Quiet a i w q) (λ skip w q.
          bind_result-After Quiet _ _
            (answer-After Quiet (check_forward_timing a skip height r terms) w q)
            (λ _ w q.
              bind_result-After Quiet _ _ (prepare_or_replay_funding-Quiet a r terms w q)
                (λ evidence w q.
                  bind_result-After Quiet _ _ (phase_kept a Quiet output_pending w q) (λ _ w q.
                    bind_result-After Quiet _ _ (pay_if_open-Quiet a i r terms w q) (λ _ w q.
                      bind_result-After Quiet _ _
                        (call-After Quiet
                          (λ t.
                            a.observe_accepted t r.session.material.hash_commitment
                              terms.amount_sats)
                          asked w q)
                        (λ invoice w q.
                          bind_result-After Quiet _ _ (call-After Quiet a.current_tip asked w q)
                            (λ tip w q.
                              bind_result-After Quiet _ _
                                (answer-After Quiet
                                  (validate_accepted invoice terms.amount_sats tip) w q)
                                (λ _ w q.
                                  bind_result-After Quiet _ _
                                    (settle_invoice-Quiet a invoice r.session.material.preimage w q)
                                    (λ _ w q.
                                      bind_result-After Quiet _ _
                                        (track_success-Quiet a r.session.material.hash_commitment w
                                          q)
                                        (λ payment w q.
                                          bind_result-After Quiet _ _
                                            (answer-After Quiet
                                              (verify_payment_preimage payment
                                                r.session.material.preimage)
                                              w q)
                                            (λ _ w q.
                                              bind_result-After Quiet _ _
                                                (phase_kept a Quiet output_settled w q)
                                                (λ _ w q.
                                                  bind_result-After Quiet _ _
                                                    (claim_or_replay-Quiet a r evidence w q)
                                                    (λ claimed w q.
                                                      bind_result-After Quiet _ _
                                                        (phase_kept a Quiet phase_settled w q)
                                                        (λ _ w q.
                                                          answer-After Quiet
                                                            (build_evidence depix_to_lightning
                                                            evidence claimed
                                                            invoice.accepted_expiry_height)
                                                            w q)))))))))))))))

  pub run_reverse-Quiet :
      (r : SwapRecoveryRecord) (i : HoldInvoice) (terms : SwapTerms) (w : World)
      → Quiet w
      → After Quiet (run_reverse_after_invoice a r i terms w)
  unfolding run_reverse_after_invoice
  run_reverse-Quiet r i terms w q =
      bind_result-After Quiet _ _ (phase_kept a Quiet output_pending w q) (λ _ w q.
        bind_result-After Quiet _ _ (pay_if_open-Quiet a i r terms w q) (λ _ w q.
          bind_result-After Quiet _ _
            (call-After Quiet
              (λ t. a.observe_accepted t r.session.material.hash_commitment terms.amount_sats) asked
              w q)
            (λ invoice w q.
              bind_result-After Quiet _ _ (call-After Quiet a.current_tip asked w q) (λ tip w q.
                bind_result-After Quiet _ _
                  (answer-After Quiet (validate_accepted invoice terms.amount_sats tip) w q)
                  (λ _ w q.
                    bind_result-After Quiet _ _ (call-After Quiet a.current_height asked w q)
                      (λ height w q.
                        bind_result-After Quiet _ _
                          (answer-After Quiet (check_reverse_timing a tip height invoice r terms) w
                            q)
                          (λ _ w q.
                            bind_result-After Quiet _ _
                              (prepare_or_replay_funding-Quiet a r terms w q)
                              (λ evidence w q.
                                bind_result-After Quiet _ _ (claim_or_replay-Quiet a r evidence w q)
                                  (λ claimed w q.
                                    bind_result-After Quiet _ _
                                      (settle_invoice-Quiet a invoice r.session.material.preimage w
                                        q)
                                      (λ _ w q.
                                        bind_result-After Quiet _ _
                                          (track_success-Quiet a r.session.material.hash_commitment
                                            w q)
                                          (λ payment w q.
                                            bind_result-After Quiet _ _
                                              (answer-After Quiet
                                                (verify_payment_preimage payment
                                                  r.session.material.preimage)
                                                w q)
                                              (λ _ w q.
                                                bind_result-After Quiet _ _
                                                  (phase_kept a Quiet output_settled w q)
                                                  (λ _ w q.
                                                    bind_result-After Quiet _ _
                                                      (phase_kept a Quiet phase_settled w q)
                                                      (λ _ w q.
                                                        answer-After Quiet
                                                          (build_evidence lightning_to_depix
                                                            evidence claimed
                                                            invoice.accepted_expiry_height)
                                                          w q))))))))))))))

  cancel_answered-Safe :
      (answer : SwapResult HoldInvoice) (r : SwapRecoveryRecord) (w : World)
      → any is_broadcast w.trace ≡ false
      → Safe (cancel_answered a answer r w)
  unfolding cancel_answered
  cancel_answered-Safe (err e) r w h = ground arith
  cancel_answered-Safe (ok invoice) r w h = elim (Bool-cases (is_accepted invoice)) [
    | inl is_so ↦ rw is_so h
    | inr is_not ↦ rw is_not (ground arith)
  ]

  cancel_unexposed-Safe :
      {A : Type 0} (r : SwapRecoveryRecord) (m : SwapResult A × World)
      → After Quiet m
      → Safe (cancel_unexposed a r m).1
  unfolding cancel_unexposed cancel_if_accepted
  cancel_unexposed-Safe r (ok e, w) q = ground arith
  cancel_unexposed-Safe r (err e, w) q =
      exposed_or_canceled-Safe w.funding_exposed w (cancel_if_accepted a r w)
        (λ exposed. ground arith)
        (λ unexposed.
          cancel_answered-Safe
            (a.observe_accepted w.trace r.session.material.hash_commitment r.session.amount_sats) r
            (note asked w) (ground arith))

  read_and_run-Safe :
      (e : Option SwapError) (r : SwapRecoveryRecord) (run : Swap CombinedSwapEvidence) (w : World)
      → ((w : World) → Quiet w → After Quiet (run w))
      → any is_broadcast w.trace ≡ false
      → any is_canceled w.trace ≡ false
      → Safe
          (bind_result (read_or_fail e funding w) (λ existing w.
            bind_result
              (set_exposed a (not (is_none existing)) w)
              (λ _ w. cancel_unexposed a r (run w)))).1
  unfolding read_or_fail set_exposed
  read_and_run-Safe (some e) r run w quiet h1 h2 = ground arith
  read_and_run-Safe none r run w quiet h1 h2 = cancel_unexposed-Safe r _ (
      quiet
        (record (note (outbox_read funding (file funding w)) w) {
          funding_exposed = not (is_none (file funding w));
        })
        (ground arith))

  -- A run that broadcasts only what is marked as exposed, and then the cancellation.
  pub run_and_cancel-Safe :
      (r : SwapRecoveryRecord) (run : Swap CombinedSwapEvidence) (w : World)
      → ((w : World) → Quiet w → After Quiet (run w))
      → any is_broadcast w.trace ≡ false
      → any is_canceled w.trace ≡ false
      → Safe (run_and_cancel a r run w).1
  unfolding run_and_cancel read_outbox
  run_and_cancel-Safe r run w quiet h1 h2 =
      read_and_run-Safe (a.file_error w.trace) r run w quiet h1 h2
