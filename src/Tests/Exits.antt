-- ===== src/Tests/Exits.antt =====
-- Proofs of an exit.
use cross_network_market_mak.Prelude.{
  ◌≡◌, ◌<◌, ◌≤◌, ◌+◌, ◌-◌, ◌/◌, ◌%◌, ◌^◌, refl, true, some, ok, All, [], ◌∷◌, List, get_elem?,
}
use cross_network_market_mak.Prelude.Text.{text_eq, codes}
use cross_network_market_mak.Core.Primitives.{Bytes}
use cross_network_market_mak.Exit.Proof.{
  TxIn, TxOut, Transaction, CsvSpendProof, OwnedOutputSet, ExitRecoveryAccounting,
  IdentifyCsvSpendArgs, Reader, validate_csv_sequence, owned_outputs, sum_values,
  verify_owned_outputs, find_spend, identify_csv_spend, account_exit_recovery, min,
}
use cross_network_market_mak.Exit.Proof.Laws.{
  Owned, total_value, account_exit_recovery-bounds, identify_csv_spend-ok,
}
use cross_network_market_mak.Exit.Proof.Timeout.{
  HtlcTimeoutProof, Instruction, push_bytes, op_hash160, op_equal, single_plus_anyone_can_pay,
  Scripts, last, has_hash_window, find_candidate, has_single_sighash, timeout_witness_script,
  binds_script, binds_output, matches_input, timeout_proof, find_timeout_proof,
  IdentifyTimeoutByHashArgs, identify_htlc_timeout_by_hash,
}
use cross_network_market_mak.Exit.Proof.Timeout.Laws.{identify_htlc_timeout_by_hash-ok}

abbrev accounting : ExitRecoveryAccounting
accounting = record {
  principal_sats = 1000;
  timeout_output_sats = 900;
  timeout_stage_fee_sats = 100;
  final_sweep_sats = 850;
  final_sweep_fee_sats = 50;
  attributable_final_sweep_sats = 900;
  net_recovered_sats = 750;
}

accounts : account_exit_recovery 1000 900 100 850 50 ≡ ok accounting
unfolding account_exit_recovery
accounts = refl

account_exit_recovery-bounds_example :
    (900 ≤ 1000) × (750 ≤ 850) × (750 ≤ 1000 - (100 + 50)) × (750 + min (100 + 50) 900 ≡ 900)
account_exit_recovery-bounds_example =
    account_exit_recovery-bounds 1000 900 100 850 50 accounting accounts

abbrev spend : TxIn
spend = record {
  previous_txid = codes "src";
  previous_vout = 1;
  sequence = 144;
  witness = [] ∷ codes "single" ∷ codes "all" ∷ [] ∷ codes "script" ∷ [];
}

abbrev sweep : Transaction
sweep = record {
  txid = codes "sweep";
  lock_time = 0;
  input = spend ∷ [];
  output = record { value = 850; script_pubkey = codes "mine" } ∷ [];
}

abbrev owned : OwnedOutputSet
owned = record { scripts = codes "mine" ∷ []; amount_sats = 850 }

verifies : verify_owned_outputs sweep (codes "mine" ∷ []) ≡ ok owned
unfolding verify_owned_outputs owned_outputs sum_values text_eq
verifies = refl

-- Every text reads as the one transaction, and a txid as itself.
abbrev reader : Reader
reader = record { parse_transaction = λ t. some sweep; parse_txid = λ t. some t }

abbrev csv_args : IdentifyCsvSpendArgs
csv_args = record {
  raw_hex = codes "raw";
  source_txid = codes "src";
  source_vout = 1;
  required_csv = 100;
  source_height = 500;
  sweep_height = 700;
  owned_scripts = codes "mine" ∷ [];
}

abbrev csv_proof : CsvSpendProof
csv_proof = record {
  sweep_txid = codes "sweep";
  source_txid = codes "src";
  source_vout = 1;
  sweep_input_index = 0;
  sequence = 144;
  required_csv = 100;
  source_height = 500;
  sweep_height = 700;
  recovered_sats = 850;
}

identifies : identify_csv_spend reader csv_args ≡ ok csv_proof
unfolding identify_csv_spend find_spend validate_csv_sequence verify_owned_outputs owned_outputs
    sum_values text_eq
identifies = refl

identify_csv_spend-ok_example :
    (tx : Transaction) × (input : TxIn) × (reader.parse_transaction csv_args.raw_hex ≡ some tx)
    × (get_elem? tx.input 0 ≡ some input)
    × (reader.parse_txid csv_args.source_txid ≡ some input.previous_txid)
    × (input.previous_vout ≡ 1)
    × (144 ≡ input.sequence)
    × (input.sequence / 2 ^ 31 % 2 ≡ 0)
    × (input.sequence / 2 ^ 22 % 2 ≡ 0)
    × (100 ≤ input.sequence % 2 ^ 16)
    × (500 + 100 ≤ 700)
    × (850 ≡ total_value tx.output)
    × (0 < 850)
    × All (Owned (codes "mine" ∷ [])) tx.output
identify_csv_spend-ok_example = identify_csv_spend-ok reader csv_args csv_proof identifies

abbrev scripts : Scripts
scripts = record {
  instructions = λ b. some (op_hash160 ∷ push_bytes (codes "hash") ∷ op_equal ∷ []);
  signature_sighash = λ b. some (single_plus_anyone_can_pay);
  new_p2wsh = λ b. b;
  ripemd160 = λ b. b;
}

abbrev timeout_args : IdentifyTimeoutByHashArgs
timeout_args = record {
  raw_hex = codes "raw";
  commitment_txid = codes "src";
  payment_hash = codes "hash";
  candidate_outputs = (0, codes "other") ∷ (1, codes "script") ∷ [];
  expected_amount_sats = 850;
}

abbrev found : HtlcTimeoutProof
found = record {
  timeout_txid = codes "sweep";
  commitment_txid = codes "src";
  commitment_vout = 1;
  timeout_input_index = 0;
  timeout_output_index = 0;
  timeout_amount_sats = 850;
  timeout_output_script = codes "mine";
  lock_time = 0;
  sequence = 144;
}

proves : identify_htlc_timeout_by_hash scripts reader timeout_args ≡ ok found
unfolding identify_htlc_timeout_by_hash find_timeout_proof timeout_proof matches_input binds_script
    binds_output find_candidate timeout_witness_script has_hash_window has_single_sighash text_eq
proves = refl

identify_htlc_timeout_by_hash-ok_example :
    (tx : Transaction) × (input : TxIn) × (output : TxOut) × (w : Bytes) × (ops : List Instruction)
    × (reader.parse_transaction timeout_args.raw_hex ≡ some tx)
    × (reader.parse_txid timeout_args.commitment_txid ≡ some input.previous_txid)
    × (get_elem? tx.input 0 ≡ some input)
    × (get_elem? tx.output 0 ≡ some output)
    × (output.value ≡ 850)
    × (found.timeout_amount_sats ≡ 850)
    × (found.timeout_output_index ≡ found.timeout_input_index)
    × (1 ≡ input.previous_vout)
    × (last input.witness ≡ some w)
    × (scripts.instructions w ≡ some ops)
    × (has_hash_window (scripts.ripemd160 timeout_args.payment_hash) ops ≡ true)
    × (find_candidate input.previous_vout timeout_args.candidate_outputs
        ≡ some (scripts.new_p2wsh w))
    × (has_single_sighash scripts input.witness ≡ true)
identify_htlc_timeout_by_hash-ok_example =
    identify_htlc_timeout_by_hash-ok scripts reader timeout_args found proves
