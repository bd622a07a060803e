-- ===== src/Swaps/Orchestrator.antt =====
-- src/swaps/orchestrator.rs: the steps of a swap after its hold invoice is known, in both
-- directions.
pub mod Order
pub mod Exposure
use cross_network_market_mak.Prelude.{
  ℕ, ◌+◌, ◌==◌, leb, Bool, true, false, not, ◌||◌, ◌&&◌, Option, none, some, ok, err, ok_or,
  reject_if, if◌then◌else◌,
}
use cross_network_market_mak.Prelude.Text.{Text, text_eq, option_eq}
use cross_network_market_mak.Core.Primitives.{Bytes}
use cross_network_market_mak.Core.Endpoint.{is_none}
use cross_network_market_mak.Core.Rfq.Terms.{option_ℕ_eq}
use cross_network_market_mak.Core.Storage.Reservations.{checked_sub, checked_add}
use cross_network_market_mak.Swaps.Error.{
  SwapResult, durability, recovery_mismatch, timing, lightning, chain, unknown,
}
use cross_network_market_mak.Swaps.Timing.{validate_forward_timing, validate_reverse_timing}
use cross_network_market_mak.Swaps.Effects.{
  OutboxKind, funding, claim, refund, kind_eq, FundingOutbox, PreparedTransaction, FundingEvidence,
  ClaimEvidence, InvoiceState, open_state, accepted, settled, canceled, HoldInvoice, PaymentState,
  succeeded, failed, PaymentObservation, SwapPhase, input_funding, input_locked, output_pending,
  output_settled, claim_pending, phase_settled, SwapTerms, SwapRecoveryRecord, phase, broadcast,
  funding_observed, claim_observed, hold_settled, hold_canceled, note, payment_sent,
  payment_tracked, asked, Adapters, World, Swap, pure, lift, bind_result, call, call_noting,
  read_outbox, write_outbox,
}
use cross_network_market_mak.Swaps.Effects.{◌>>=◌, ◌>>◌}
pub use cross_network_market_mak.Swaps.Checks.{
  SwapDirection, CombinedSwapEvidence, is_open, is_accepted, is_settled, has_failed, has_succeeded,
  or_zero, depix_to_lightning, lightning_to_depix,
}
unfoldable pub use cross_network_market_mak.Swaps.Checks.{
  validate_accepted, verify_payment_preimage, build_evidence, validate_funding_outbox,
  validate_spend_outbox,
}

module _ (a : Adapters) where
  abbrev pub on_phase : SwapPhase → Swap (Unit {0})
  on_phase p = call (λ t. a.on_phase t p) (phase p)

  abbrev pub expose : Swap (Unit {0})
  expose w = (ok tt, record w { funding_exposed = true })

  unfoldable pub persist_funding : PreparedTransaction → Swap FundingOutbox
  persist_funding prepared w =
      if not (kind_eq prepared.outbox.kind funding)
      then (err (durability "funding adapter returned the wrong outbox kind"), w)
      else bind_result
          (write_outbox a funding (record prepared.outbox { funding_vout = prepared.funding_vout })
            w)
          (λ _. pure (record prepared.outbox { funding_vout = prepared.funding_vout }))

  unfoldable pub persist_spend : OutboxKind → PreparedTransaction → Swap FundingOutbox
  persist_spend path prepared w =
      if not (kind_eq prepared.outbox.kind claim) && not (kind_eq prepared.outbox.kind refund)
      then (err (durability "spend adapter returned a funding outbox"), w)
      else bind_result (write_outbox a path prepared.outbox w) (λ _. pure prepared.outbox)

  -- The outbox on disk, or one that is prepared and written to disk.
  unfoldable pub funding_or_prepare :
      SwapRecoveryRecord → SwapTerms → Option FundingOutbox → Swap FundingOutbox
  funding_or_prepare r terms (some o) = lift (validate_funding_outbox o)
  funding_or_prepare r terms none = do
    prepared ← call (λ t. a.prepare_funding t r terms) asked
    persist_funding prepared

  unfoldable pub claim_or_prepare :
      SwapRecoveryRecord → FundingEvidence → Option FundingOutbox → Swap FundingOutbox
  claim_or_prepare r evidence (some o) = lift (validate_spend_outbox o claim evidence)
  claim_or_prepare r evidence none = do
    prepared ← call (λ t. a.prepare_spend t r evidence claim) asked
    persist_spend claim prepared

  abbrev pub observe_funding : SwapRecoveryRecord → SwapTerms → FundingOutbox → Swap FundingEvidence
  observe_funding r terms o =
      call_noting
        (λ t. a.observe_funding t r o.txid (or_zero o.funding_vout) terms.asset_amount_sats)
        funding_observed

  abbrev pub observe_claim : SwapRecoveryRecord → FundingOutbox → Swap ClaimEvidence
  observe_claim r o =
      call_noting (λ t. a.observe_claim t r o r.session.material.preimage) claim_observed

  -- A first observation that fails is confirmed and made again.
  unfoldable pub retry_funding :
      SwapRecoveryRecord
      → SwapTerms
      → FundingOutbox
      → SwapResult FundingEvidence × World
      → SwapResult FundingEvidence × World
  retry_funding r terms o (ok f, w) = (ok f, w)
  retry_funding r terms o (err e, w) =
      bind_result (call (λ t. a.confirm_funding t r o) asked w) (λ _. observe_funding r terms o)

  unfoldable pub retry_claim :
      SwapRecoveryRecord
      → FundingOutbox
      → SwapResult ClaimEvidence × World
      → SwapResult ClaimEvidence × World
  retry_claim r o (ok c, w) = (ok c, w)
  retry_claim r o (err e, w) =
      bind_result (call (λ t. a.confirm_spend t o) asked w) (λ _. observe_claim r o)

  unfoldable pub broadcast_outbox : FundingOutbox → Swap (Unit {0})
  broadcast_outbox o = call (λ t. a.broadcast_tx t o) (broadcast o)

  unfoldable pub prepare_or_replay_funding : SwapRecoveryRecord → SwapTerms → Swap FundingEvidence
  prepare_or_replay_funding r terms = do
    existing ← read_outbox a funding
    outbox ← funding_or_prepare r terms existing
    expose
    on_phase input_funding
    broadcast_outbox outbox
    evidence ← (λ w. retry_funding r terms outbox (observe_funding r terms outbox w))
    on_phase input_locked
    pure evidence

  unfoldable pub claim_or_replay : SwapRecoveryRecord → FundingEvidence → Swap ClaimEvidence
  claim_or_replay r evidence = do
    existing ← read_outbox a claim
    outbox ← claim_or_prepare r evidence existing
    expose
    on_phase claim_pending
    broadcast_outbox outbox
    (λ w. retry_claim r outbox (observe_claim r outbox w))

  unfoldable pub send_payment : Option Text → SwapRecoveryRecord → SwapTerms → Swap (Unit {0})
  send_payment none r terms = lift (err (lightning "payment request is missing"))
  send_payment (some payment_request) r terms = do
    observation ←
        call (λ t. a.pay t payment_request r.session.material.hash_commitment terms) payment_sent
    lift (
        reject_if (has_failed observation)
          (lightning "Lightning payment failed before the hold was accepted"))

  unfoldable pub pay_if_open : HoldInvoice → SwapRecoveryRecord → SwapTerms → Swap (Unit {0})
  pay_if_open invoice r terms =
      if is_open invoice then send_payment invoice.payment_request r terms else pure tt

  unfoldable pub settle_invoice : HoldInvoice → Bytes → Swap (Unit {0})
  settle_invoice invoice preimage =
      if is_settled invoice
      then pure tt
      else call (λ t. a.settle_hold t invoice.payment_hash preimage) (hold_settled preimage)

  unfoldable pub track_success : Bytes → Swap PaymentObservation
  track_success hash = do
    observation ← call_noting (λ t. a.track_by_hash t hash) payment_tracked
    lift (reject_if (not (has_succeeded observation)) (unknown "Lightning payment ended in {:?}"))
    pure observation

  -- The timing is not checked again when the invoice is settled and a funding outbox exists.
  unfoldable pub check_forward_timing :
      Bool → ℕ → SwapRecoveryRecord → SwapTerms → SwapResult (Unit {0})
  check_forward_timing true height r terms = ok tt
  check_forward_timing false height r terms =
      elim (checked_sub r.contract.refund_lock_height height) [
        | none ↦ err (timing "Liquid refund lock is already past")
        | some refund_delta ↦
            elim (validate_forward_timing terms.lightning_cltv_limit refund_delta
              terms.claim_margin_seconds) [ ok _ ↦ ok tt | err e ↦ err e ]
      ]

  unfoldable pub is_settled_recovery : HoldInvoice → Swap Bool
  is_settled_recovery invoice =
      if is_settled invoice
      then (do existing ← read_outbox a funding; pure (not (is_none existing)))
      else pure false

  unfoldable pub check_reverse_timing :
      ℕ → ℕ → HoldInvoice → SwapRecoveryRecord → SwapTerms → SwapResult (Unit {0})
  check_reverse_timing tip height accepted_invoice r terms =
      elim (checked_sub r.contract.refund_lock_height height) [
        | none ↦ err (timing "Liquid refund lock is already past")
        | some refund_delta ↦ elim accepted_invoice.accepted_expiry_height [
          | none ↦ err (timing "accepted Lightning HTLC expiry is missing")
          | some expiry ↦
              elim (validate_reverse_timing tip expiry refund_delta terms.claim_margin_seconds) [
                | ok _ ↦ ok tt
                | err e ↦ err e
              ]
        ]
      ]

  unfoldable pub run_forward_after_invoice :
      SwapRecoveryRecord → HoldInvoice → SwapTerms → Swap CombinedSwapEvidence
  run_forward_after_invoice r invoice terms = do
    height ← call a.current_height asked
    settled_recovery ← is_settled_recovery invoice
    lift (check_forward_timing settled_recovery height r terms)
    evidence ← prepare_or_replay_funding r terms
    on_phase output_pending
    pay_if_open invoice r terms
    accepted_invoice ←
        call (λ t. a.observe_accepted t r.session.material.hash_commitment terms.amount_sats) asked
    tip ← call a.current_tip asked
    lift (validate_accepted accepted_invoice terms.amount_sats tip)
    settle_invoice accepted_invoice r.session.material.preimage
    payment ← track_success r.session.material.hash_commitment
    lift (verify_payment_preimage payment r.session.material.preimage)
    on_phase output_settled
    claimed ← claim_or_replay r evidence
    on_phase phase_settled
    lift
        (build_evidence depix_to_lightning evidence claimed accepted_invoice.accepted_expiry_height)

  unfoldable pub run_reverse_after_invoice :
      SwapRecoveryRecord → HoldInvoice → SwapTerms → Swap CombinedSwapEvidence
  run_reverse_after_invoice r invoice terms = do
    on_phase output_pending
    pay_if_open invoice r terms
    accepted_invoice ←
        call (λ t. a.observe_accepted t r.session.material.hash_commitment terms.amount_sats) asked
    tip ← call a.current_tip asked
    lift (validate_accepted accepted_invoice terms.amount_sats tip)
    liquid_height ← call a.current_height asked
    lift (check_reverse_timing tip liquid_height accepted_invoice r terms)
    evidence ← prepare_or_replay_funding r terms
    claimed ← claim_or_replay r evidence
    settle_invoice accepted_invoice r.session.material.preimage
    payment ← track_success r.session.material.hash_commitment
    lift (verify_payment_preimage payment r.session.material.preimage)
    on_phase output_settled
    on_phase phase_settled
    lift
        (build_evidence lightning_to_depix evidence claimed accepted_invoice.accepted_expiry_height)

  -- The answers are not looked at, but for the state of the invoice.
  unfoldable pub cancel_answered : SwapResult HoldInvoice → SwapRecoveryRecord → World → World
  cancel_answered (err e) r w = w
  cancel_answered (ok invoice) r w =
      if is_accepted invoice
      then (call (λ t. a.cancel_hold t r.session.material.hash_commitment) hold_canceled w).1
      else w

  unfoldable pub cancel_if_accepted : SwapRecoveryRecord → World → World
  unfolding cancel_answered
  cancel_if_accepted r w =
      cancel_answered
        (a.observe_accepted w.trace r.session.material.hash_commitment r.session.amount_sats) r
        (note asked w)

  -- A run that fails before anything was exposed cancels the hold invoice.
  unfoldable pub cancel_unexposed :
      {A : Type 0} → SwapRecoveryRecord → SwapResult A × World → SwapResult A × World
  cancel_unexposed r (ok e, w) = (ok e, w)
  cancel_unexposed r (err e, w) = (err e, if w.funding_exposed then w else cancel_if_accepted r w)

  unfoldable pub set_exposed : Bool → Swap (Unit {0})
  set_exposed b w = (ok tt, record w { funding_exposed = b })

  -- The rest of `run_forward_swap` and `run_reverse_swap` when the invoice is known and no claim
  -- outbox exists.
  unfoldable pub run_and_cancel :
      SwapRecoveryRecord → Swap CombinedSwapEvidence → Swap CombinedSwapEvidence
  unfolding cancel_unexposed set_exposed
  run_and_cancel r run = do
    existing ← read_outbox a funding
    set_exposed (not (is_none existing))
    (λ w. cancel_unexposed r (run w))
