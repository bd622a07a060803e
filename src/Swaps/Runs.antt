-- ===== src/Swaps/Runs.antt =====
-- src/swaps/orchestrator.rs: run_forward_swap and run_reverse_swap, from the recovery record on.
pub mod Replay
pub mod Safety
use cross_network_market_mak.Prelude.{
  ℕ, ◌==◌, true, Bool, Option, none, some, Result, ok, err, ok_or, if◌then◌else◌,
}
use cross_network_market_mak.Prelude.Text.{Text}
use cross_network_market_mak.Core.Primitives.{Primitives, Bytes}
use cross_network_market_mak.Chain.Contract.{ScriptCrates}
use cross_network_market_mak.Lightning.Error.{LightningError, http}
use cross_network_market_mak.Lightning.Bolt11.{Bolt11Invoice}
use cross_network_market_mak.Swaps.Error.{SwapResult, durability, lightning}
use cross_network_market_mak.Swaps.Recovery.{SwapKeyMaterial}
use cross_network_market_mak.Swaps.Recovery.Checks.{KeyCrate, PrepareRecoveryRequest, Secrets}
use cross_network_market_mak.Swaps.Recovery.Files.{Sealing, Faults, File, prepare_or_load_recovery}
use cross_network_market_mak.Swaps.Checks.{
  SwapDirection, depix_to_lightning, lightning_to_depix, CombinedSwapEvidence,
  validate_invoice_amount, validate_open_invoice, validate_claim_outbox, validate_accepted,
  verify_payment_preimage,
}
use cross_network_market_mak.Swaps.Effects.{
  Chain, AssetId, claim, FundingOutbox, ClaimEvidence, HoldInvoice, recovery_prepared,
  output_settled, phase_settled, SwapTerms, SwapRecoveryRecord, invoice_seen, asked, Adapters,
  World, Swap, pure, lift, bind_result, call, note, read_outbox, ◌>>=◌, ◌>>◌,
}
use cross_network_market_mak.Swaps.Orchestrator.{
  on_phase, broadcast_outbox, observe_claim, retry_claim, settle_invoice, track_success,
  run_forward_after_invoice, run_reverse_after_invoice, run_and_cancel,
}

pub record SwapTermsDefaults : Type 0 where
  pub chain : Chain
  pub asset_id : AssetId
  pub fee_asset_id : AssetId
  pub amount_sats : ℕ
  pub asset_amount_sats : ℕ
  pub fee_sats : ℕ
  pub refund_lock_height : ℕ
  pub quote_id : Option Text

unfoldable pub with_defaults : SwapTermsDefaults → SwapTerms
with_defaults args = record {
  chain = args.chain;
  asset_id = args.asset_id;
  fee_asset_id = args.fee_asset_id;
  amount_sats = args.amount_sats;
  asset_amount_sats = args.asset_amount_sats;
  fee_sats = args.fee_sats;
  refund_lock_height = args.refund_lock_height;
  quote_id = args.quote_id;
  lightning_cltv_limit = 80;
  hold_cltv_expiry = 40;
  fee_limit_sats = 20;
  payment_timeout = 1;
  claim_margin_seconds = none;
}

unfoldable pub recovery_request :
    SwapDirection → SwapTerms → Option SwapKeyMaterial → PrepareRecoveryRequest
recovery_request direction terms supplied_material = record {
  direction = direction;
  chain = terms.chain;
  asset_id = terms.asset_id;
  fee_asset_id = terms.fee_asset_id;
  amount_sats = terms.amount_sats;
  asset_amount_sats = terms.asset_amount_sats;
  fee_sats = terms.fee_sats;
  refund_lock_height = terms.refund_lock_height;
  quote_id = terms.quote_id;
  supplied_material = supplied_material;
}

unfoldable pub load_recovery :
    Primitives
    → Sealing
    → ScriptCrates
    → KeyCrate
    → Faults
    → Bytes
    → SwapDirection
    → SwapTerms
    → Option SwapKeyMaterial
    → Secrets
    → Bytes
    → (File → File)
    → File
    → SwapResult (SwapRecoveryRecord × Bool) × File
load_recovery p c s k faults key direction terms supplied secrets nonce other file =
    prepare_or_load_recovery p c s k faults key (recovery_request direction terms supplied) secrets
      nonce other file

abbrev pub loaded_record : SwapResult (SwapRecoveryRecord × Bool) → SwapResult SwapRecoveryRecord
loaded_record (ok (r, _)) = ok r
loaded_record (err e) = err e

abbrev pub found_invoice : Result LightningError HoldInvoice → Option HoldInvoice
found_invoice (ok i) = some i
found_invoice (err e) = none

module _ (a : Adapters) where
  -- An invoice that was not found is created.
  unfoldable pub ensure_found :
      Result LightningError HoldInvoice → Bytes → SwapTerms → Option Text → Swap HoldInvoice
  ensure_found (ok invoice) hash terms memo = do
    lift (validate_invoice_amount invoice terms.amount_sats)
    pure invoice
  ensure_found (err (http status message)) hash terms memo =
      if status == 404
      then call (λ t. a.create_hold_invoice t hash terms memo) asked
      else lift (err (lightning "{error}"))
  ensure_found (err _) hash terms memo = lift (err (lightning "{error}"))

  unfoldable pub ensure_invoice : Bytes → SwapTerms → Option Text → Swap HoldInvoice
  ensure_invoice hash terms memo w =
      ensure_found (a.lookup_invoice w.trace hash) hash terms memo
        (note (invoice_seen (found_invoice (a.lookup_invoice w.trace hash))) w)

  -- What is left to do after the claim was seen.
  unfoldable pub finish_claim :
      SwapRecoveryRecord → SwapDirection → FundingOutbox → ClaimEvidence → Swap CombinedSwapEvidence
  finish_claim r direction outbox claimed = do
    current_invoice ←
        call (λ t. a.observe_accepted t r.session.material.hash_commitment r.session.amount_sats)
          asked
    tip ← call a.current_tip asked
    lift (validate_accepted current_invoice r.session.amount_sats tip)
    settle_invoice a current_invoice r.session.material.preimage
    payment ← track_success a r.session.material.hash_commitment
    lift (verify_payment_preimage payment r.session.material.preimage)
    on_phase a output_settled
    on_phase a phase_settled
    funding_txid ← lift (ok_or outbox.funding_txid (durability "claim outbox lacks funding txid"))
    pure (record {
      direction = direction;
      funding_txid = funding_txid;
      claim_txid = claimed.txid;
      claim_confirmations = claimed.confirmations;
      invoice_settled = true;
      payer_succeeded = true;
      preimage_verified = claimed.preimage_verified;
      accepted_expiry_height = current_invoice.accepted_expiry_height;
    })

  unfoldable pub replay_found :
      SwapRecoveryRecord → SwapDirection → FundingOutbox → Swap CombinedSwapEvidence
  replay_found r direction o = do
    outbox ← lift (validate_claim_outbox o)
    broadcast_outbox a outbox
    claimed ← (λ w. retry_claim a r outbox (observe_claim a r outbox w))
    finish_claim r direction outbox claimed

  unfoldable pub replay_claim :
      SwapRecoveryRecord → SwapDirection → Option FundingOutbox → Swap (Option CombinedSwapEvidence)
  replay_claim r direction none = pure none
  replay_claim r direction (some o) = do evidence ← replay_found r direction o; pure (some evidence)

  unfoldable pub replay_completed :
      SwapRecoveryRecord → SwapDirection → Swap (Option CombinedSwapEvidence)
  replay_completed r direction = do
    existing ← read_outbox a claim
    replay_claim r direction existing

  -- What was completed before is answered; otherwise the run goes on.
  unfoldable pub replayed_or :
      Swap CombinedSwapEvidence → Option CombinedSwapEvidence → Swap CombinedSwapEvidence
  replayed_or run (some evidence) = pure evidence
  replayed_or run none = run

  -- `loaded` is what `load_recovery` answered, `now` the time.
  module _ (parse : Text → Option Bolt11Invoice) (now : ℕ)
      (loaded : SwapResult (SwapRecoveryRecord × Bool)) (terms : SwapTerms)
      (memo : Option Text) where
    unfoldable pub run_forward_swap : Swap CombinedSwapEvidence
    run_forward_swap = do
      r ← lift (loaded_record loaded)
      on_phase a recovery_prepared
      invoice ← ensure_invoice r.session.material.hash_commitment terms memo
      lift (validate_open_invoice parse now invoice terms.amount_sats)
      replayed ← replay_completed r depix_to_lightning
      replayed_or (run_and_cancel a r (run_forward_after_invoice a r invoice terms)) replayed

    unfoldable pub run_reverse_swap : Swap CombinedSwapEvidence
    run_reverse_swap = do
      r ← lift (loaded_record loaded)
      on_phase a recovery_prepared
      invoice ← ensure_invoice r.session.material.hash_commitment terms memo
      lift (validate_open_invoice parse now invoice terms.amount_sats)
      replayed ← replay_completed r lightning_to_depix
      replayed_or (run_and_cancel a r (run_reverse_after_invoice a r invoice terms)) replayed
