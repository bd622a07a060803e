-- ===== src/Chain/Liquid/Transactions.antt =====
-- src/chain/liquid.rs: building funding and spending transactions, with explicit amounts. Reading texts
-- is left to the `elements` crate; issuances, peg-ins and confidential amounts do not occur.
use cross_network_market_mak.Prelude.{
  ℕ, ltb, ◌==◌, List, [], ◌∷◌, ◌++◌, Bool, true, false, not, ◌&&◌, ◌||◌, Option, ok, ok_or,
  reject_if, if◌then◌else◌,
}
use cross_network_market_mak.Prelude.Outcome.{◌>>=◌, ◌>>◌}
use cross_network_market_mak.Prelude.Text.{Text, text_eq}
use cross_network_market_mak.Core.Primitives.{Primitives, Bytes}
use cross_network_market_mak.Core.Storage.Reservations.{checked_add}
use cross_network_market_mak.Chain.Types.{
  ChainResult, invalid_input, validation, AssetId, native_bitcoin, asset_eq, explicit_bytes,
  HtlcContract,
}
use cross_network_market_mak.Chain.Contract.{ScriptCrates}
use cross_network_market_mak.Chain.Bitcoin.{
  SpendKind, claim, refund, TxIn, spend_lock_time, spend_sequence,
}
use cross_network_market_mak.Chain.Liquid.{ElementsCrate, validate_liquid_contract}

pub record LiquidUtxo : Type 0 where
  pub txid : Text
  pub vout : ℕ
  pub asset_id : AssetId
  pub amount_sats : ℕ
  pub script_pubkey : Bytes
  pub confirmations : ℕ

pub record LiquidFundingArgs : Type 0 where
  pub payment_input : LiquidUtxo
  pub fee_input : LiquidUtxo
  pub contract : HtlcContract
  pub htlc_amount_sats : ℕ
  pub payment_change_script : Bytes
  pub payment_change_amount_sats : ℕ
  pub fee_change_script : Bytes
  pub fee_change_amount_sats : ℕ
  pub fee_sats : ℕ
  pub fee_asset_id : AssetId

pub record LiquidSpendArgs : Type 0 where
  pub contract : HtlcContract
  pub funding_txid : Bytes
  pub funding_vout : ℕ
  pub funding_amount_sats : ℕ
  pub fee_input : LiquidUtxo
  pub destination_script : Bytes
  pub fee_change_script : Bytes
  pub fee_change_amount_sats : ℕ
  pub fee_sats : ℕ
  pub fee_asset_id : AssetId
  pub kind : SpendKind

-- An output with an explicit asset and amount; that of the fee has an empty script.
pub record AssetOut : Type 0 where
  pub asset : Bytes
  pub value : ℕ
  pub script_pubkey : Bytes

pub record LiquidTransaction : Type 0 where
  pub version : ℕ
  pub lock_time : ℕ
  pub input : List TxIn
  pub output : List AssetOut

-- `AssetId::from_str` and `Txid::from_str` of the `elements` crate.
pub record ElementsTexts : Type 0 where
  pub parse_asset : Text → Option Bytes
  pub parse_txid : Text → Option Bytes

unfoldable pub kind_is_refund : SpendKind → Bool
kind_is_refund claim = false
kind_is_refund refund = true

unfoldable pub validate_asset_match : AssetId → AssetId → ChainResult (Unit {0})
validate_asset_match actual expected = do
  reject_if (not (asset_eq actual expected))
      (validation "{label} asset does not match the HTLC asset")
  ok tt

unfoldable pub validate_fee_asset : AssetId → AssetId → ChainResult (Unit {0})
validate_fee_asset expected actual = do
  reject_if (asset_eq expected native_bitcoin || not (asset_eq actual expected))
      (invalid_input "Liquid fee asset must be the matching explicit asset id")
  ok tt

unfoldable pub same_outpoint : LiquidUtxo → LiquidUtxo → Bool
same_outpoint left right = text_eq left.txid right.txid && left.vout == right.vout

unfoldable pub new_input : Bytes × ℕ → ℕ → TxIn
new_input (txid, vout) sequence = record {
  previous_txid = txid;
  previous_vout = vout;
  sequence = sequence;
  witness = [];
}

unfoldable pub payment_output : Bytes → ℕ → Bytes → AssetOut
payment_output asset amount script = record {
  asset = asset;
  value = amount;
  script_pubkey = script;
}

unfoldable pub new_fee : ℕ → Bytes → AssetOut
new_fee amount asset = record { asset = asset; value = amount; script_pubkey = [] }

-- The output that is appended, if its amount is positive.
unfoldable pub append_output : Bytes → ℕ → Bytes → List AssetOut
unfolding payment_output
append_output asset amount script =
    if ltb 0 amount then payment_output asset amount script ∷ [] else []

module _ (p : Primitives) (s : ScriptCrates) (e : ElementsCrate) (x : ElementsTexts) where
  unfoldable pub validate_funding_args : LiquidFundingArgs → ChainResult (Unit {0})
  validate_funding_args args = do
    validate_liquid_contract p s e args.contract
    reject_if (args.fee_sats == 0) (invalid_input "Liquid funding requires a positive explicit fee")
    validate_asset_match args.payment_input.asset_id args.contract.asset_id
    validate_fee_asset args.fee_asset_id args.fee_input.asset_id
    reject_if (same_outpoint args.payment_input args.fee_input)
        (invalid_input "Liquid payment and fee inputs must be distinct outpoints")
    payment_total ←
        ok_or (checked_add args.htlc_amount_sats args.payment_change_amount_sats)
          (invalid_input "Liquid payment amount overflow")
    fee_total ←
        ok_or (checked_add args.fee_change_amount_sats args.fee_sats)
          (invalid_input "Liquid fee amount overflow")
    reject_if
        (not (args.payment_input.amount_sats == payment_total)
          || not (args.fee_input.amount_sats == fee_total))
        (invalid_input "Liquid input amounts must equal their explicit outputs")
    ok tt

  unfoldable pub validate_spend_args : LiquidSpendArgs → ChainResult (Unit {0})
  validate_spend_args args = do
    validate_liquid_contract p s e args.contract
    reject_if (args.fee_sats == 0 || args.funding_amount_sats == 0)
        (invalid_input "Liquid spend requires positive funding and fee amounts")
    validate_fee_asset args.fee_asset_id args.fee_input.asset_id
    fee_total ←
        ok_or (checked_add args.fee_change_amount_sats args.fee_sats)
          (invalid_input "Liquid fee amount overflow")
    reject_if (not (args.fee_input.amount_sats == fee_total))
        (invalid_input "Liquid fee input must equal fee change plus fee output")
    reject_if (kind_is_refund args.kind && args.contract.refund_lock_height == 0)
        (invalid_input "Liquid refund lock height must be positive")
    ok tt

  unfoldable pub explicit_asset : AssetId → ChainResult Bytes
  explicit_asset asset_id = do
    bytes ← explicit_bytes asset_id
    ok_or (x.parse_asset (p.hex_encode bytes))
        (invalid_input "asset id is not a valid Elements asset hash")

  unfoldable pub parse_outpoint : LiquidUtxo → ChainResult (Bytes × ℕ)
  parse_outpoint input = do
    txid ← ok_or (x.parse_txid input.txid) (invalid_input "Liquid funding txid is malformed")
    ok (txid, input.vout)

  unfoldable pub parse_elements_script : Text → ChainResult Bytes
  parse_elements_script value =
      ok_or (s.elements_from_hex value) (invalid_input "{label} is not hexadecimal")

  unfoldable pub liquid_funding_outputs : LiquidFundingArgs → Bytes → Bytes → Bytes → List AssetOut
  unfolding payment_output append_output new_fee
  liquid_funding_outputs args payment_asset fee_asset output_script =
      payment_output payment_asset args.htlc_amount_sats output_script
      ∷ (append_output payment_asset args.payment_change_amount_sats args.payment_change_script
          ++ append_output fee_asset args.fee_change_amount_sats args.fee_change_script
          ++ new_fee args.fee_sats fee_asset ∷ [])

  unfoldable pub spend_outputs : LiquidSpendArgs → Bytes → Bytes → Bytes → List AssetOut
  unfolding payment_output append_output new_fee
  spend_outputs args payment_asset fee_asset destination_script =
      payment_output payment_asset args.funding_amount_sats destination_script
      ∷ (append_output fee_asset args.fee_change_amount_sats args.fee_change_script
          ++ new_fee args.fee_sats fee_asset ∷ [])

  -- With the assets known.
  unfoldable pub build_funding_of :
      LiquidFundingArgs → Bytes → Bytes → ChainResult LiquidTransaction
  build_funding_of args payment_asset fee_asset = do
    output_script ← parse_elements_script args.contract.output_script_hex
    payment_outpoint ← parse_outpoint args.payment_input
    fee_outpoint ← parse_outpoint args.fee_input
    ok (record {
      version = 2;
      lock_time = 0;
      input = new_input payment_outpoint 0xfffffffd ∷ new_input fee_outpoint 0xfffffffd ∷ [];
      output = liquid_funding_outputs args payment_asset fee_asset output_script;
    })

  unfoldable pub build_liquid_funding_transaction :
      LiquidFundingArgs → ChainResult LiquidTransaction
  build_liquid_funding_transaction args = do
    validate_funding_args args
    payment_asset ← explicit_asset args.contract.asset_id
    fee_asset ← explicit_asset args.fee_asset_id
    build_funding_of args payment_asset fee_asset

  unfoldable pub build_spend_of : LiquidSpendArgs → Bytes → Bytes → ChainResult LiquidTransaction
  build_spend_of args payment_asset fee_asset = do
    fee_outpoint ← parse_outpoint args.fee_input
    lock_time ← spend_lock_time args.kind args.contract.refund_lock_height
    ok (record {
      version = 2;
      lock_time = lock_time;
      input =
          new_input (args.funding_txid, args.funding_vout) (spend_sequence args.kind)
          ∷ new_input fee_outpoint 0xfffffffd
          ∷ [];
      output = spend_outputs args payment_asset fee_asset args.destination_script;
    })

  unfoldable pub build_liquid_htlc_spend : LiquidSpendArgs → ChainResult LiquidTransaction
  build_liquid_htlc_spend args = do
    validate_spend_args args
    payment_asset ← explicit_asset args.contract.asset_id
    fee_asset ← explicit_asset args.fee_asset_id
    build_spend_of args payment_asset fee_asset

  unfoldable pub claim_liquid_htlc : LiquidSpendArgs → ChainResult LiquidTransaction
  claim_liquid_htlc args = do
    reject_if (kind_is_refund args.kind)
        (invalid_input "claim_liquid_htlc requires the claim branch")
    build_liquid_htlc_spend args

  unfoldable pub refund_liquid_htlc : LiquidSpendArgs → ChainResult LiquidTransaction
  refund_liquid_htlc args = do
    reject_if (not (kind_is_refund args.kind))
        (invalid_input "refund_liquid_htlc requires the refund branch")
    build_liquid_htlc_spend args
