-- ===== src/Tests/Runs.antt =====
-- A run of the orchestrator in each direction.
use cross_network_market_mak.Prelude.{
  ℕ, ◌≡◌, refl, true, false, any, ◌↔◌, ◌⊎◌, ◌<◌, ◌+◌, ◌^◌, [], some, none, ok,
}
use cross_network_market_mak.Prelude.Text.{text_eq, option_eq, codes}
use cross_network_market_mak.Core.Rfq.Terms.{option_ℕ_eq}
use cross_network_market_mak.Swaps.Timing.{validate_forward_timing, validate_reverse_timing}
use cross_network_market_mak.Swaps.Effects.{
  native_bitcoin, explicit, liquid_regtest, OutboxKind, funding, kind_eq, FundingOutbox,
  FundingEvidence, ClaimEvidence, open_state, accepted, HoldInvoice, succeeded, settled, in_flight,
  SwapTerms, SwapRecoveryRecord, Adapters, World, read_outbox, write_outbox, read_or_fail,
  write_or_fail, write_or_compare,
}
use cross_network_market_mak.Chain.Types.{HtlcContract}
use cross_network_market_mak.Swaps.Recovery.{SwapKeyMaterial}
use cross_network_market_mak.Swaps.Orchestrator.{
  CombinedSwapEvidence, depix_to_lightning, lightning_to_depix, validate_accepted,
  verify_payment_preimage, build_evidence, validate_funding_outbox, validate_spend_outbox,
  persist_funding, persist_spend, funding_or_prepare, claim_or_prepare, retry_funding, retry_claim,
  broadcast_outbox, prepare_or_replay_funding, claim_or_replay, send_payment, pay_if_open,
  settle_invoice, track_success, check_forward_timing, check_reverse_timing, is_settled_recovery,
  run_forward_after_invoice, run_reverse_after_invoice,
}
use cross_network_market_mak.Swaps.Orchestrator.Exposure.Cancel.{Safe}
use cross_network_market_mak.Swaps.Runs.{run_forward_swap, run_reverse_swap}
use cross_network_market_mak.Swaps.Runs.Safety.{run_swap-Safe}
use cross_network_market_mak.Swaps.Checks.Laws.{validate_accepted_iff}
use cross_network_market_mak.Swaps.Orchestrator.Order.{
  is_funded, is_claimed, is_paid_with, is_ordered,
}
use cross_network_market_mak.Swaps.Orchestrator.Order.Forward.{
  run_forward-ordered, run_forward-completed,
}
use cross_network_market_mak.Swaps.Orchestrator.Order.Reverse.{
  run_reverse-ordered, run_reverse-completed,
}

abbrev pub outbox : OutboxKind → FundingOutbox
outbox kind = record {
  kind = kind;
  txid = codes "tx";
  raw_hex = codes "raw";
  funding_txid = some (codes "fund");
  funding_vout = some 0;
}

abbrev observed : FundingEvidence
observed = record {
  txid = codes "fund";
  vout = 0;
  amount_sats = 100;
  asset_id = native_bitcoin;
  confirmations = 1;
}

abbrev claimed_output : ClaimEvidence
claimed_output = record {
  txid = codes "claim";
  funding_txid = codes "fund";
  funding_vout = 0;
  confirmations = 1;
  preimage_verified = true;
}

abbrev pub held_invoice : HoldInvoice
held_invoice = record {
  payment_hash = codes "h";
  payment_request = some (codes "ln");
  state = accepted;
  amount_sats = 100;
  cltv_expiry = 40;
  add_index = codes "1";
  accepted_amount_sats = some 100;
  accepted_expiry_height = some 300;
}

abbrev pub opened_invoice : HoldInvoice
opened_invoice = record held_invoice { state = open_state }

-- Every call succeeds.
abbrev pub adapters : Adapters
adapters = record {
  current_height = λ t. ok 100;
  prepare_funding = λ t r terms. ok (record {
    outbox = outbox funding;
    funding_vout = some 0;
    asset_id = native_bitcoin;
    amount_sats = 100;
  });
  prepare_spend = λ t r f kind. ok (record {
    outbox = outbox kind;
    funding_vout = none;
    asset_id = native_bitcoin;
    amount_sats = 100;
  });
  broadcast_tx = λ t o. ok tt;
  confirm_funding = λ t r o. ok tt;
  confirm_spend = λ t o. ok tt;
  observe_funding = λ t r txid vout amount. ok observed;
  observe_claim = λ t r o preimage. ok claimed_output;
  observe_refund = λ t o. ok (record {
    txid = codes "refund";
    funding_txid = codes "fund";
    funding_vout = 0;
    confirmations = 1;
  });
  lookup_invoice = λ t hash. ok held_invoice;
  create_hold_invoice = λ t hash terms memo. ok opened_invoice;
  observe_accepted = λ t hash amount. ok held_invoice;
  current_tip = λ t. ok 200;
  settle_hold = λ t hash preimage. ok tt;
  cancel_hold = λ t hash. ok tt;
  pay = λ t request hash terms. ok (record {
    payment_hash = hash;
    failure_reason = none;
    fee_sats = none;
    state = in_flight;
    payment_preimage = none;
  });
  track_by_hash = λ t hash. ok (record {
    payment_hash = hash;
    failure_reason = none;
    fee_sats = none;
    state = succeeded;
    payment_preimage = some (codes "p");
  });
  on_phase = λ t phase. ok tt;
  file_error = λ t. none;
  leaves_file = λ t. false;
}

abbrev pub terms : SwapTerms
terms = record {
  chain = liquid_regtest;
  asset_id = explicit (codes "depix");
  fee_asset_id = explicit (codes "lbtc");
  refund_lock_height = 1100;
  quote_id = none;
  hold_cltv_expiry = 40;
  payment_timeout = 1;
  amount_sats = 100;
  asset_amount_sats = 100;
  fee_sats = 1;
  lightning_cltv_limit = 80;
  fee_limit_sats = 20;
  claim_margin_seconds = none;
}

abbrev pub material : SwapKeyMaterial
material = record {
  preimage = codes "p";
  hash_commitment = codes "h";
  claim_private_key = codes "c";
  claim_public_key = codes "C";
  refund_private_key = codes "r";
  refund_public_key = codes "R";
  destination_private_key = codes "d";
  destination_public_key = codes "D";
}

abbrev pub contract : HtlcContract
contract = record {
  chain = liquid_regtest;
  asset_id = explicit (codes "depix");
  hash_lock = codes "h";
  claim_pubkey = codes "C";
  refund_pubkey = codes "R";
  refund_lock_height = 1100;
  witness_script_hex = codes "w";
  output_script_hex = codes "o";
  address = codes "a";
}

abbrev pub recovery : SwapRecoveryRecord
recovery = record {
  version = 1;
  session = record {
    direction = depix_to_lightning;
    material = material;
    asset_id = explicit (codes "depix");
    fee_asset_id = explicit (codes "lbtc");
    amount_sats = 100;
    asset_amount_sats = 100;
    fee_sats = 1;
    refund_lock_height = 1100;
    quote_id = none;
  };
  contract = contract;
}

-- A refund lock that is near enough for the reverse direction.
abbrev near : SwapRecoveryRecord
near = record recovery { contract = record contract { refund_lock_height = 150 } }

abbrev pub fresh : World
fresh = record {
  trace = [];
  funding_file = none;
  claim_file = none;
  refund_file = none;
  funding_exposed = false;
}

fresh_is_ordered :
    (is_ordered depix_to_lightning (codes "p") [] ≡ true)
    × (is_ordered lightning_to_depix (codes "p") [] ≡ true)
unfolding is_ordered
fresh_is_ordered = (refl, refl)

run_forward-ordered_example :
    is_ordered depix_to_lightning
      (codes "p")
      (run_forward_after_invoice adapters recovery opened_invoice terms fresh).1.trace
    ≡ true
run_forward-ordered_example =
    run_forward-ordered adapters recovery opened_invoice terms fresh (fresh_is_ordered.0)

abbrev forward_evidence : CombinedSwapEvidence
forward_evidence = record {
  direction = depix_to_lightning;
  funding_txid = codes "fund";
  claim_txid = codes "claim";
  claim_confirmations = 1;
  invoice_settled = true;
  payer_succeeded = true;
  preimage_verified = true;
  accepted_expiry_height = some 300;
}

forward_completes :
    (run_forward_after_invoice adapters recovery opened_invoice terms fresh).0 ≡ ok forward_evidence
unfolding run_forward_after_invoice run_reverse_after_invoice is_settled_recovery
    check_forward_timing check_reverse_timing validate_forward_timing validate_reverse_timing
    prepare_or_replay_funding claim_or_replay read_outbox write_outbox read_or_fail write_or_fail
    write_or_compare funding_or_prepare claim_or_prepare persist_funding persist_spend
    validate_funding_outbox validate_spend_outbox broadcast_outbox retry_funding retry_claim
    pay_if_open send_payment validate_accepted option_ℕ_eq settle_invoice track_success
    verify_payment_preimage build_evidence kind_eq text_eq option_eq
forward_completes = refl

run_forward-completed_example :
    (any is_funded (run_forward_after_invoice adapters recovery opened_invoice terms fresh).1.trace
      ≡ true)
    × (any is_claimed
          (run_forward_after_invoice adapters recovery opened_invoice terms fresh).1.trace
        ≡ true)
    × (any
          (is_paid_with (codes "p"))
          (run_forward_after_invoice adapters recovery opened_invoice terms fresh).1.trace
        ≡ true)
run_forward-completed_example =
    run_forward-completed adapters recovery opened_invoice terms fresh forward_evidence
      (fresh_is_ordered.0) forward_completes

run_reverse-ordered_example :
    is_ordered lightning_to_depix
      (codes "p")
      (run_reverse_after_invoice adapters near opened_invoice terms fresh).1.trace
    ≡ true
run_reverse-ordered_example =
    run_reverse-ordered adapters near opened_invoice terms fresh (fresh_is_ordered.1)

abbrev reverse_evidence : CombinedSwapEvidence
reverse_evidence = record forward_evidence { direction = lightning_to_depix }

reverse_completes :
    (run_reverse_after_invoice adapters near opened_invoice terms fresh).0 ≡ ok reverse_evidence
unfolding run_forward_after_invoice run_reverse_after_invoice is_settled_recovery
    check_forward_timing check_reverse_timing validate_forward_timing validate_reverse_timing
    prepare_or_replay_funding claim_or_replay read_outbox write_outbox read_or_fail write_or_fail
    write_or_compare funding_or_prepare claim_or_prepare persist_funding persist_spend
    validate_funding_outbox validate_spend_outbox broadcast_outbox retry_funding retry_claim
    pay_if_open send_payment validate_accepted option_ℕ_eq settle_invoice track_success
    verify_payment_preimage build_evidence kind_eq text_eq option_eq
reverse_completes = refl

run_reverse-completed_example :
    (any is_funded (run_reverse_after_invoice adapters near opened_invoice terms fresh).1.trace
      ≡ true)
    × (any is_claimed (run_reverse_after_invoice adapters near opened_invoice terms fresh).1.trace
        ≡ true)
    × (any
          (is_paid_with (codes "p"))
          (run_reverse_after_invoice adapters near opened_invoice terms fresh).1.trace
        ≡ true)
run_reverse-completed_example =
    run_reverse-completed adapters near opened_invoice terms fresh reverse_evidence
      (fresh_is_ordered.1) reverse_completes

validate_accepted_iff_example : (validate_accepted held_invoice 100 200 ≡ ok tt) ↔ (
    (held_invoice.accepted_amount_sats ≡ some 100)
    × ((accepted ≡ settled)
        ⊎ ((accepted ≡ accepted)
            × (expiry : ℕ) × (held_invoice.accepted_expiry_height ≡ some expiry)
            × (200 + 6 < 2 ^ 64)
            × (200 + 6 < expiry))))
validate_accepted_iff_example = validate_accepted_iff held_invoice 100 200

run_swap-Safe_example :
    Safe (run_forward_swap adapters (λ t. none) 0 (ok (recovery, false)) terms none fresh).1
    × Safe (run_reverse_swap adapters (λ t. none) 0 (ok (recovery, false)) terms none fresh).1
run_swap-Safe_example =
    run_swap-Safe adapters (λ t. none) 0 (ok (recovery, false)) terms none fresh refl refl
