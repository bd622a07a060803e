-- ===== src/Chain/Checks.antt =====
-- src/chain/observation.rs: its checks of what a node answered.
use cross_network_market_mak.Prelude.{
  String, ℕ, ◌%◌, ◌^◌, ltb, leb, ◌==◌, length, suc, List, [], ◌∷◌, Bool, not, ◌&&◌, ◌||◌, Option,
  none, some, ok, err, ok_or, reject_if, if◌then◌else◌,
}
use cross_network_market_mak.Prelude.Outcome.{◌>>=◌, ◌>>◌}
use cross_network_market_mak.Prelude.Text.{Text, text_eq, option_eq, codes}
use cross_network_market_mak.Prelude.Int.{ℤ, pos, negsuc}
use cross_network_market_mak.Prelude.Json.{Value, string, number}
use cross_network_market_mak.Core.Primitives.{Primitives, Bytes}
use cross_network_market_mak.Core.Amount.{is_empty}
use cross_network_market_mak.Core.Rfq.Terms.{option_ℕ_eq}
use cross_network_market_mak.Core.Storage.Reservations.{checked_add}
use cross_network_market_mak.Chain.Types.{
  ChainResult, invalid_input, wrong_network, validation, serialization, refund_too_early, Chain,
  chain_eq, to_hex, HtlcContract,
}
use cross_network_market_mak.Chain.Contract.{ScriptCrates, validate_htlc_contract}
use cross_network_market_mak.Chain.Amount.{parse_decimal_sats}
use cross_network_market_mak.Chain.Node.{
  BlockchainInfo, BitcoinGetTxOut, BitcoinVerboseOutput, GenericInput, LiquidGetTxOut,
  LiquidVerboseOutput,
}

unfoldable pub validate_headroom : ℕ → ℕ → ℕ → ChainResult (Unit {0})
validate_headroom blocks refund_lock_height min_headroom_blocks = do
  required ← ok_or (checked_add blocks min_headroom_blocks) (validation "chain height overflow")
  reject_if (leb refund_lock_height required) (refund_too_early blocks refund_lock_height)
  ok tt

abbrev pub is_bitcoin_regtest : BlockchainInfo → Bool
is_bitcoin_regtest info = text_eq info.chain (codes "regtest")

abbrev pub is_liquid_regtest : BlockchainInfo → Bool
is_liquid_regtest info =
    text_eq info.chain (codes "elementsregtest") || text_eq info.chain (codes "liquidregtest")

unfoldable pub validate_bitcoin_chain : BlockchainInfo → ChainResult (Unit {0})
validate_bitcoin_chain info = do
  reject_if (not (is_bitcoin_regtest info)) (wrong_network "Bitcoin RPC is on {}, expected regtest")
  ok tt

unfoldable pub validate_liquid_chain : BlockchainInfo → ChainResult (Unit {0})
validate_liquid_chain info = do
  reject_if (not (is_liquid_regtest info))
      (wrong_network "Elements RPC is on {}, expected Elements regtest")
  ok tt

unfoldable pub parse_coin_amount : Value → ChainResult ℕ
parse_coin_amount (string text) = parse_decimal_sats text
parse_coin_amount (number text) = parse_decimal_sats text
parse_coin_amount _ = err (validation "RPC amount must be a decimal string or JSON number")

-- Both amounts are read, the second one only if the first is as expected.
unfoldable pub check_amounts : String → Value → Value → ℕ → ChainResult (Unit {0})
check_amounts mismatch output current expected_amount_sats = do
  first ← parse_coin_amount output
  reject_if (not (first == expected_amount_sats)) (validation mismatch)
  second ← parse_coin_amount current
  reject_if (not (second == expected_amount_sats)) (validation mismatch)
  ok tt

unfoldable pub validate_bitcoin_output :
    BitcoinVerboseOutput → BitcoinGetTxOut → HtlcContract → ℕ → ChainResult (Unit {0})
validate_bitcoin_output output current contract expected_amount_sats = do
  reject_if
      (not (text_eq output.script_pub_key contract.output_script_hex)
        || not (text_eq current.script_pub_key contract.output_script_hex))
      (validation "Bitcoin HTLC output script does not match the contract")
  check_amounts "Bitcoin HTLC output amount does not match the expected amount" output.value
      current.value expected_amount_sats

unfoldable pub validate_liquid_output :
    Primitives → LiquidVerboseOutput → LiquidGetTxOut → HtlcContract → ℕ → ChainResult (Unit {0})
validate_liquid_output p output current contract expected_amount_sats = do
  reject_if
      (not (text_eq output.script_pub_key contract.output_script_hex)
        || not (text_eq current.script_pub_key contract.output_script_hex)
        || not (text_eq output.asset (to_hex p contract.asset_id))
        || not (text_eq current.asset (to_hex p contract.asset_id)))
      (validation "Elements HTLC output script or asset does not match the contract")
  check_amounts "Elements HTLC output amount does not match the expected amount" output.value
      current.value expected_amount_sats

-- `unwrap_or(0)`, and `u32::try_from`.
unfoldable pub confirmed_count : Option ℤ → ChainResult ℕ
confirmed_count none = ok 0
confirmed_count (some (negsuc n)) = err (validation "transaction is conflicted or unconfirmed")
confirmed_count (some (pos n)) =
    if ltb n (2 ^ 32) then ok n else err (validation "confirmation count exceeds supported range")

abbrev pub spends : Text → ℕ → GenericInput → Bool
spends funding_txid funding_vout input =
    option_eq input.txid (some funding_txid) && option_ℕ_eq input.vout (some funding_vout)

-- `position`.
unfoldable pub position_from : ℕ → Text → ℕ → List GenericInput → Option ℕ
position_from index txid vout [] = none
position_from index txid vout (i ∷ is) =
    let rest = position_from (suc index) txid vout is in
    if spends txid vout i then some index else rest

unfoldable pub find_funding_input : List GenericInput → Text → ℕ → ChainResult ℕ
find_funding_input inputs funding_txid funding_vout =
    ok_or (position_from 0 funding_txid funding_vout inputs)
      (validation "claim does not spend the expected HTLC outpoint")

unfoldable pub decode_hex : Primitives → Text → ChainResult Bytes
decode_hex p value = do
  reject_if (is_empty value || not (length value % 2 == 0))
      (serialization "{label} is not even-length hexadecimal")
  ok_or (p.hex_decode value) (serialization "{label} is not hexadecimal")

module _ (p : Primitives) (s : ScriptCrates) where
  unfoldable pub validate_inspection_inputs : HtlcContract → Chain → ℕ → ChainResult (Unit {0})
  validate_inspection_inputs contract expected_chain min_confirmations = do
    validate_htlc_contract p s contract
    reject_if (not (chain_eq contract.chain expected_chain))
        (wrong_network "HTLC contract chain does not match the inspection adapter")
    reject_if (min_confirmations == 0) (invalid_input "minimum confirmations must be positive")
    ok tt
