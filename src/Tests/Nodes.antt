-- ===== src/Tests/Nodes.antt =====
-- What is made of the answers of a node.
use cross_network_market_mak.Prelude.{
  ℕ, ◌≡◌, ◌≤◌, ◌*◌, ◌+◌, ◌^◌, ◌++◌, refl, true, [], ◌∷◌, List, none, some, ok, length,
}
use cross_network_market_mak.Prelude.Text.{Text, codes, text_eq, option_eq}
use cross_network_market_mak.Prelude.Decimal.{parse_u64, scan, scan_all}
use cross_network_market_mak.Prelude.Int.{ℤ, pos, pos_part, neg_part}
use cross_network_market_mak.Prelude.Json.{string}
use cross_network_market_mak.Core.Rfq.Terms.{option_ℕ_eq}
use cross_network_market_mak.Chain.Types.{
  liquid_regtest, chain_eq, explicit, asset_eq, to_hex, HtlcContract, contract_eq, FundingEvidence,
}
use cross_network_market_mak.Chain.Script.{validate_lock_height, build_htlc_witness_script}
use cross_network_market_mak.Chain.Contract.{
  validate_asset, contract_address, create_htlc_contract, validate_htlc_contract,
}
use cross_network_market_mak.Chain.Amount.{
  take, split_once, fold_digits, parse_magnitude, parse_decimal_exponent, scale_up, scale_down,
  scale_decimal_digits, decimal_shift, scale_significant, scale_parts, parse_mantissa,
  parse_decimal_sats,
}
use cross_network_market_mak.Chain.Amount.Scaling.{worth}
use cross_network_market_mak.Chain.Amount.Exact.{Writes, parse_decimal_sats-ok}
use cross_network_market_mak.Chain.Bitcoin.{
  validate_bitcoin_contract, expected_witness_script, validate_preimage,
}
use cross_network_market_mak.Chain.Bitcoin.Spend.{claim_witness_preimage, extract_claim_preimage}
use cross_network_market_mak.Chain.Checks.{
  validate_headroom, is_bitcoin_regtest, validate_bitcoin_chain, validate_liquid_chain,
  parse_coin_amount, check_amounts, validate_liquid_output, confirmed_count, position_from,
  find_funding_input, validate_inspection_inputs,
}
use cross_network_market_mak.Chain.Sanitize.{encode_utf8, sanitize_rpc_error}
use cross_network_market_mak.Chain.Sanitize.Redaction.{Redacted, char_count}
use cross_network_market_mak.Chain.Sanitize.Report.{Sanitized, sanitize_rpc_error-Redacted}
use cross_network_market_mak.Chain.Node.{Node}
use cross_network_market_mak.Chain.Observation.{
  InspectArgs, ObserveArgs, ClaimObservation, find_liquid_output, inspect_liquid_htlc_output,
  broadcast_bitcoin_transaction, observe_bitcoin_claim,
}
use cross_network_market_mak.Chain.Observation.Funding.{
  LiquidFunding, inspect_liquid_htlc_output-ok,
}
use cross_network_market_mak.Chain.Observation.Claims.{BitcoinClaim, observe_bitcoin_claim-ok}
use cross_network_market_mak.Chain.Observation.Broadcast.{
  sends_checked, broadcast_bitcoin_transaction-checked,
}
use cross_network_market_mak.Tests.{plain}
use cross_network_market_mak.Tests.Contracts.{
  scripts, crate, secret, contract, claim_script, signed_claim,
}

amount_is_read : parse_decimal_sats (codes "1.5e-3") ≡ ok 150000
unfolding split_once fold_digits parse_magnitude parse_decimal_exponent scale_up scale_down
    scale_decimal_digits decimal_shift scale_significant scale_parts parse_mantissa
    parse_decimal_sats parse_u64 scan scan_all
amount_is_read = refl

parse_decimal_sats-ok_example :
    (e : ℤ) × (w : Text) × (f : Text) × Writes (codes "1.5e-3") w f e
    × (150000 * 10 ^ (length f + neg_part e) ≡ worth (w ++ f) 0 * 10 ^ (8 + pos_part e))
parse_decimal_sats-ok_example = parse_decimal_sats-ok (codes "1.5e-3") 150000 amount_is_read

sanitize_rpc_error-Redacted_example :
    Redacted (sanitize_rpc_error (codes "no such transaction"))
    × (char_count (sanitize_rpc_error (codes "no such transaction")) ≤ 180)
    × (length (sanitize_rpc_error (codes "no such transaction")) ≤ 360)
    × (chars : List ℕ) × Sanitized (codes "no such transaction") chars
    × (sanitize_rpc_error (codes "no such transaction") ≡ encode_utf8 (take 180 chars))
sanitize_rpc_error-Redacted_example = sanitize_rpc_error-Redacted (codes "no such transaction")

abbrev liquid_contract : HtlcContract
liquid_contract = record contract {
  chain = liquid_regtest;
  asset_id = explicit (codes "depix");
  address = codes "el1";
}

abbrev node : Node
node = record {
  blockchain_info = λ w. ok (record { chain = codes "elementsregtest"; blocks = 100 });
  bitcoin_transaction = λ w txid. ok (record {
    confirmations = some (pos 3);
    hex = some signed_claim.raw_hex;
    vin = record { txid = some (codes "fund"); vout = some 0 } ∷ [];
    vout = [];
  });
  bitcoin_txout = λ w txid vout. ok none;
  liquid_transaction = λ w txid. ok (record {
    confirmations = some (pos 3);
    hex = none;
    vin = [];
    vout =
        record {
          n = 0;
          value = string (codes "1.5e-3");
          asset = codes "depix";
          script_pub_key = claim_script;
        }
        ∷ [];
  });
  liquid_txout = λ w txid vout. ok (
      some (record {
        confirmations = 3;
        value = string (codes "1.5e-3");
        asset = codes "depix";
        script_pub_key = claim_script;
      }));
  transaction_txid = λ w txid. ok txid;
  send = λ w raw. ok (codes "sent");
}

abbrev bitcoin_node : Node
bitcoin_node = record node {
  blockchain_info = λ w. ok (record { chain = codes "regtest"; blocks = 100 });
}

abbrev inspected : InspectArgs
inspected = record {
  txid = codes "fund";
  vout = 0;
  contract = liquid_contract;
  expected_amount_sats = 150000;
  min_confirmations = 2;
  min_headroom_blocks = 10;
}

abbrev funding : FundingEvidence
funding = record {
  txid = codes "fund";
  vout = 0;
  amount_sats = 150000;
  asset_id = explicit (codes "depix");
  confirmations = 3;
}

funding_is_accepted : (inspect_liquid_htlc_output plain scripts node inspected []).0 ≡ ok funding
unfolding inspect_liquid_htlc_output validate_inspection_inputs validate_htlc_contract
    create_htlc_contract validate_asset contract_address build_htlc_witness_script
    validate_lock_height chain_eq asset_eq contract_eq text_eq validate_liquid_chain
    validate_headroom find_liquid_output validate_liquid_output check_amounts parse_coin_amount
    to_hex confirmed_count split_once fold_digits parse_magnitude parse_decimal_exponent scale_up
    scale_down scale_decimal_digits decimal_shift scale_significant scale_parts parse_mantissa
    parse_decimal_sats parse_u64 scan scan_all
funding_is_accepted = refl

inspect_liquid_htlc_output-ok_example : LiquidFunding plain scripts node inspected [] funding
inspect_liquid_htlc_output-ok_example =
    inspect_liquid_htlc_output-ok plain scripts node inspected [] funding funding_is_accepted

abbrev observed : ObserveArgs
observed = record {
  funding_txid = codes "fund";
  funding_vout = 0;
  claim_txid = codes "claim";
  contract = contract;
  min_confirmations = 2;
}

abbrev claim_seen : ClaimObservation
claim_seen = record {
  claim_txid = codes "claim";
  preimage = record { preimage = secret; confirmations = 3 };
}

claim_is_accepted :
    (observe_bitcoin_claim plain scripts bitcoin_node crate observed []).0 ≡ ok claim_seen
unfolding observe_bitcoin_claim validate_inspection_inputs validate_htlc_contract
    create_htlc_contract validate_asset contract_address build_htlc_witness_script
    validate_lock_height chain_eq asset_eq contract_eq text_eq option_eq option_ℕ_eq
    validate_bitcoin_chain confirmed_count position_from find_funding_input
    validate_bitcoin_contract expected_witness_script validate_preimage claim_witness_preimage
    extract_claim_preimage
claim_is_accepted = refl

observe_bitcoin_claim-ok_example :
    BitcoinClaim plain scripts crate bitcoin_node observed [] claim_seen
observe_bitcoin_claim-ok_example =
    observe_bitcoin_claim-ok plain scripts crate bitcoin_node observed [] claim_seen
      claim_is_accepted

broadcast_bitcoin_transaction-checked_example :
    sends_checked is_bitcoin_regtest
      (broadcast_bitcoin_transaction plain scripts bitcoin_node
        (λ raw. some (codes "sent"))
        (codes "00")
        []).1
    ≡ true
broadcast_bitcoin_transaction-checked_example =
    broadcast_bitcoin_transaction-checked plain scripts bitcoin_node (λ raw. some (codes "sent"))
      (codes "00") [] refl
