-- ===== src/Exit/Proof.antt =====
-- src/exit/proof.rs and the records of src/exit/types.rs that it makes. Transactions are the parsed
-- ones of the `bitcoin` crate; reading them, scripts, signatures and hashes are parameters.
pub mod Timeout
pub mod Laws
use cross_network_market_mak.Prelude.{
  ℕ, ◌+◌, ◌-◌, ◌/◌, ◌%◌, ltb, leb, ◌==◌, Bool, true, false, not, ◌&&◌, ◌||◌, any, List, [], ◌∷◌,
  map, Option, none, some, ok, ok_or, reject_if, if◌then◌else◌, suc,
}
use cross_network_market_mak.Prelude.Outcome.{◌>>=◌, ◌>>◌}
use cross_network_market_mak.Prelude.Text.{Text, text_eq}
use cross_network_market_mak.Core.Primitives.{Bytes}
use cross_network_market_mak.Core.Amount.{is_empty}
use cross_network_market_mak.Core.Storage.Reservations.{checked_add}
use cross_network_market_mak.Exit.Error.{ExitResult, proof, transaction, invalid_data}

-- `bitcoin::Transaction`, with its txid.
pub record TxIn : Type 0 where
  pub previous_txid : Bytes
  pub previous_vout : ℕ
  pub sequence : ℕ
  pub witness : List Bytes

pub record TxOut : Type 0 where
  pub value : ℕ
  pub script_pubkey : Bytes

pub record Transaction : Type 0 where
  pub txid : Text
  pub lock_time : ℕ
  pub input : List TxIn
  pub output : List TxOut

pub record CsvSpendProof : Type 0 where
  pub sweep_txid : Text
  pub source_txid : Text
  pub source_vout : ℕ
  pub sweep_input_index : ℕ
  pub sequence : ℕ
  pub required_csv : ℕ
  pub source_height : ℕ
  pub sweep_height : ℕ
  pub recovered_sats : ℕ

pub record OwnedOutputSet : Type 0 where
  pub scripts : List Bytes
  pub amount_sats : ℕ

pub record ExitRecoveryAccounting : Type 0 where
  pub principal_sats : ℕ
  pub timeout_output_sats : ℕ
  pub timeout_stage_fee_sats : ℕ
  pub final_sweep_sats : ℕ
  pub final_sweep_fee_sats : ℕ
  pub attributable_final_sweep_sats : ℕ
  pub net_recovered_sats : ℕ

-- Bits 31 and 22 of the sequence, and its low 16 bits.
abbrev pub disables_relative : ℕ → Bool
disables_relative sequence = not (sequence / 0x80000000 % 2 == 0)

abbrev pub selects_time : ℕ → Bool
selects_time sequence = not (sequence / 0x400000 % 2 == 0)

unfoldable pub validate_csv_sequence : ℕ → ℕ → ExitResult (Unit {0})
validate_csv_sequence sequence required_csv = do
  reject_if
      (disables_relative sequence || selects_time sequence || ltb (sequence % 0x10000) required_csv)
      (proof "CSV sequence disables relative blocks, selects time mode, or is too short")
  ok tt

abbrev pub is_owned : List Bytes → TxOut → Bool
is_owned owned_scripts output = any (λ script. text_eq script output.script_pubkey) owned_scripts

unfoldable pub owned_outputs : List Bytes → List TxOut → List TxOut
owned_outputs owned_scripts [] = []
owned_outputs owned_scripts (o ∷ os) =
    if is_owned owned_scripts o
    then o ∷ owned_outputs owned_scripts os
    else owned_outputs owned_scripts os

-- `try_fold` with `checked_add`.
unfoldable pub sum_values : ℕ → List TxOut → ExitResult ℕ
sum_values total [] = ok total
sum_values total (o ∷ os) = do
  next ← ok_or (checked_add total o.value) (proof "owned output amount overflow")
  sum_values next os

abbrev pub is_foreign : List Bytes → TxOut → Bool
is_foreign owned_scripts output = ltb 0 output.value && not (is_owned owned_scripts output)

abbrev no_outputs : List TxOut → Bool
no_outputs [] = true
no_outputs (_ ∷ _) = false

unfoldable pub verify_owned_outputs : Transaction → List Bytes → ExitResult OwnedOutputSet
verify_owned_outputs tx owned_scripts = do
  reject_if (any (is_foreign owned_scripts) tx.output)
      (proof "transaction has a positive output outside the payer wallet")
  amount_sats ← sum_values 0 (owned_outputs owned_scripts tx.output)
  reject_if (no_outputs (owned_outputs owned_scripts tx.output) || amount_sats == 0)
      (proof "no positive owned output was observed")
  ok (record {
    scripts = map (λ o. o.script_pubkey) (owned_outputs owned_scripts tx.output);
    amount_sats = amount_sats;
  })

-- The first input that spends the source output, and its index.
unfoldable pub find_spend : ℕ → Bytes → ℕ → List TxIn → Option (ℕ × TxIn)
find_spend index txid vout [] = none
find_spend index txid vout (i ∷ is) =
    if text_eq i.previous_txid txid && i.previous_vout == vout
    then some (index, i)
    else find_spend (suc index) txid vout is

pub record IdentifyCsvSpendArgs : Type 0 where
  pub raw_hex : Text
  pub source_txid : Text
  pub source_vout : ℕ
  pub required_csv : ℕ
  pub source_height : ℕ
  pub sweep_height : ℕ
  pub owned_scripts : List Bytes

-- Reading a raw transaction and the text of a txid.
pub record Reader : Type 0 where
  pub parse_transaction : Text → Option Transaction
  pub parse_txid : Text → Option Bytes

unfoldable pub identify_csv_spend : Reader → IdentifyCsvSpendArgs → ExitResult CsvSpendProof
identify_csv_spend reader args = do
  tx ← ok_or (reader.parse_transaction args.raw_hex) (transaction "{error}")
  source_txid ←
      ok_or (reader.parse_txid args.source_txid) (invalid_data "CSV source txid is invalid")
  (sweep_input_index, input) ←
      ok_or (find_spend 0 source_txid args.source_vout tx.input)
        (proof "CSV sweep does not spend the expected source output")
  validate_csv_sequence input.sequence args.required_csv
  reject_if
      (ltb args.sweep_height args.source_height
        || ltb (args.sweep_height - args.source_height) args.required_csv)
      (proof "CSV sweep confirmation height is before the required maturity")
  owned ← verify_owned_outputs tx args.owned_scripts
  ok (record {
    sweep_txid = tx.txid;
    source_txid = args.source_txid;
    source_vout = args.source_vout;
    sweep_input_index = sweep_input_index;
    sequence = input.sequence;
    required_csv = args.required_csv;
    source_height = args.source_height;
    sweep_height = args.sweep_height;
    recovered_sats = owned.amount_sats;
  })

abbrev pub min : ℕ → ℕ → ℕ
min a b = if leb a b then a else b

unfoldable pub account_exit_recovery : ℕ → ℕ → ℕ → ℕ → ℕ → ExitResult ExitRecoveryAccounting
account_exit_recovery principal timeout_output timeout_fee final_sweep final_fee = do
  reject_if (ltb principal timeout_output)
      (proof "exit stage output exceeds the original HTLC principal")
  gross ← ok_or (checked_add final_sweep final_fee) (proof "exit final amount overflow")
  deductions ← ok_or (checked_add timeout_fee final_fee) (proof "exit fee accounting overflow")
  ok (record {
    principal_sats = principal;
    timeout_output_sats = timeout_output;
    timeout_stage_fee_sats = timeout_fee;
    final_sweep_sats = final_sweep;
    final_sweep_fee_sats = final_fee;
    attributable_final_sweep_sats = min gross principal;
    net_recovered_sats = min gross principal - deductions;
  })
