-- ===== src/Swaps/Runs/Safety.antt =====
-- A whole run never both cancels the hold invoice and broadcasts.
use cross_network_market_mak.Prelude.{ℕ, ◌≡◌, false, any, Bool, Option, none, some, ok, err, arith}
use cross_network_market_mak.Prelude.Text.{Text}
use cross_network_market_mak.Lightning.Bolt11.{Bolt11Invoice}
use cross_network_market_mak.Swaps.Error.{SwapError, SwapResult}
use cross_network_market_mak.Swaps.Checks.{
  SwapDirection, depix_to_lightning, lightning_to_depix, CombinedSwapEvidence,
  validate_open_invoice,
}
use cross_network_market_mak.Swaps.Effects.{
  claim, FundingOutbox, HoldInvoice, recovery_prepared, SwapTerms, SwapRecoveryRecord, phase,
  outbox_read, Adapters, World, Swap, pure, lift, bind_result, note, file, read_outbox,
  read_or_fail,
}
use cross_network_market_mak.Swaps.Orchestrator.{
  on_phase, run_forward_after_invoice, run_reverse_after_invoice, run_and_cancel,
}
use cross_network_market_mak.Swaps.Orchestrator.Exposure.{
  is_broadcast, is_canceled, Quiet, After, answer-After, call-After,
}
use cross_network_market_mak.Swaps.Orchestrator.Exposure.Cancel.{
  Safe, run_and_cancel-Safe, run_forward-Quiet, run_reverse-Quiet,
}
use cross_network_market_mak.Swaps.Runs.{
  ensure_invoice, replay_found, replay_claim, replay_completed, replayed_or, run_forward_swap,
  run_reverse_swap,
}
use cross_network_market_mak.Swaps.Runs.Replay.{
  Calm, Uncanceled, Calm-Uncanceled, Uncanceled-Safe, bind-Safe, ensure_invoice-Calm,
  replay_found-Uncanceled,
}

module _ (a : Adapters) where
  answered-Safe :
      (m : SwapResult CombinedSwapEvidence × World) (run : Swap CombinedSwapEvidence)
      → After Uncanceled m
      → Safe (bind_result (bind_result m (λ e. pure (some e))) (replayed_or a run)).1
  unfolding replayed_or
  answered-Safe (ok v, w) run h = Uncanceled-Safe w h
  answered-Safe (err e, w) run h = Uncanceled-Safe w h

  -- A run that finds no claim outbox goes on with nothing broadcast.
  replayed-Safe :
      (o : Option FundingOutbox) (r : SwapRecoveryRecord) (d : SwapDirection)
      (run : Swap CombinedSwapEvidence) (w : World)
      → Calm w
      → ((w : World) → Calm w → Safe (run w).1)
      → Safe (bind_result (replay_claim a r d o w) (replayed_or a run)).1
  unfolding replay_claim replayed_or
  replayed-Safe none r d run w h k = k w h
  replayed-Safe (some o) r d run w h k =
      answered-Safe (replay_found a r d o w) run
        (replay_found-Uncanceled a r d o w (Calm-Uncanceled w h))

  replay-Safe :
      (e : Option SwapError) (r : SwapRecoveryRecord) (d : SwapDirection)
      (run : Swap CombinedSwapEvidence) (w : World)
      → Calm w
      → ((w : World) → Calm w → Safe (run w).1)
      → Safe
          (bind_result
            (bind_result (read_or_fail e claim w) (replay_claim a r d))
            (replayed_or a run)).1
  unfolding read_or_fail
  replay-Safe (some e) r d run w h k = Uncanceled-Safe w (Calm-Uncanceled w h)
  replay-Safe none r d run w h k =
      replayed-Safe (file claim w) r d run (note (outbox_read claim (file claim w)) w) h k

  module _ (parse : Text → Option Bolt11Invoice) (now : ℕ) (terms : SwapTerms)
      (memo : Option Text) where
    -- What both directions do before and after the run proper.
    around-Safe :
        (r : SwapRecoveryRecord) (d : SwapDirection) (run : HoldInvoice → Swap CombinedSwapEvidence)
        (w : World)
        → ((i : HoldInvoice) (w : World) → Quiet w → After Quiet (run i w))
        → Calm w
        → Safe
            (bind_result (on_phase a recovery_prepared w) (λ _ w.
              bind_result (ensure_invoice a r.session.material.hash_commitment terms memo w) (λ i w.
                bind_result (lift (validate_open_invoice parse now i terms.amount_sats) w) (λ _ w.
                  bind_result
                    (replay_completed a r d w)
                    (replayed_or a (run_and_cancel a r (run i))))))).1
    unfolding replay_completed read_outbox
    around-Safe r d run w quiet h =
        bind-Safe (on_phase a recovery_prepared w) _
          (call-After Calm (λ t. a.on_phase t recovery_prepared) (phase recovery_prepared) w h)
          (λ _ w h.
            bind-Safe _ _ (ensure_invoice-Calm a r.session.material.hash_commitment terms memo w h)
              (λ i w h.
                bind-Safe _ _
                  (answer-After Calm (validate_open_invoice parse now i terms.amount_sats) w h)
                  (λ _ w h.
                    replay-Safe (a.file_error w.trace) r d (run_and_cancel a r (run i)) w h (λ w h.
                      run_and_cancel-Safe a r (run i) w (quiet i) (ground (arith, h))
                        (ground (arith, h))))))

    forward_loaded-Safe :
        (loaded : SwapResult (SwapRecoveryRecord × Bool)) (w : World)
        → Calm w
        → Safe (run_forward_swap a parse now loaded terms memo w).1
    unfolding run_forward_swap
    forward_loaded-Safe (err e) w h = Uncanceled-Safe w (Calm-Uncanceled w h)
    forward_loaded-Safe (ok (r, b)) w h =
        around-Safe r depix_to_lightning (λ i. run_forward_after_invoice a r i terms) w
          (λ i. run_forward-Quiet a r i terms) h

    reverse_loaded-Safe :
        (loaded : SwapResult (SwapRecoveryRecord × Bool)) (w : World)
        → Calm w
        → Safe (run_reverse_swap a parse now loaded terms memo w).1
    unfolding run_reverse_swap
    reverse_loaded-Safe (err e) w h = Uncanceled-Safe w (Calm-Uncanceled w h)
    reverse_loaded-Safe (ok (r, b)) w h =
        around-Safe r lightning_to_depix (λ i. run_reverse_after_invoice a r i terms) w
          (λ i. run_reverse-Quiet a r i terms) h

-- A swap, in either direction, that starts with nothing broadcast and nothing canceled never does both:
-- if the hold invoice is canceled when it ends, nothing was broadcast, whatever the recovery file and
-- the adapters answered and wherever the swap stopped.
pub run_swap-Safe :
    (a : Adapters) (parse : Text → Option Bolt11Invoice) (now : ℕ)
    (loaded : SwapResult (SwapRecoveryRecord × Bool)) (terms : SwapTerms) (memo : Option Text)
    (w : World)
    → any is_broadcast w.trace ≡ false
    → any is_canceled w.trace ≡ false
    → Safe (run_forward_swap a parse now loaded terms memo w).1
      × Safe (run_reverse_swap a parse now loaded terms memo w).1
run_swap-Safe a parse now loaded terms memo w h k = (
  forward_loaded-Safe a parse now terms memo loaded w (ground (arith, h, k)),
  reverse_loaded-Safe a parse now terms memo loaded w (ground (arith, h, k)),
)
