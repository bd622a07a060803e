-- ===== src/Exit/Proof/Timeout.antt =====
-- `identify_htlc_timeout` and `identify_htlc_timeout_by_hash`.
pub mod Laws
use cross_network_market_mak.Prelude.{
  ℕ, suc, ◌==◌, leb, length, get_elem?, Bool, true, false, not, ◌&&◌, ◌||◌, List, [], ◌∷◌, map,
  Option, none, some, ok, err, ok_or, reject_if, if◌then◌else◌,
}
use cross_network_market_mak.Prelude.Outcome.{◌>>=◌, ◌>>◌}
use cross_network_market_mak.Prelude.Text.{Text, text_eq}
use cross_network_market_mak.Core.Primitives.{Bytes}
use cross_network_market_mak.Core.Amount.{is_empty}
use cross_network_market_mak.Exit.Error.{ExitResult, proof, transaction, invalid_data}
use cross_network_market_mak.Exit.Proof.{TxIn, TxOut, Transaction, Reader}

pub record HtlcTimeoutProof : Type 0 where
  pub timeout_txid : Text
  pub commitment_txid : Text
  pub commitment_vout : ℕ
  pub timeout_input_index : ℕ
  pub timeout_output_index : ℕ
  pub timeout_amount_sats : ℕ
  pub timeout_output_script : Bytes
  pub lock_time : ℕ
  pub sequence : ℕ

-- An instruction of a script: a push, or an opcode of which three matter.
pub data Instruction : Type 0 where
  push_bytes : Bytes → Instruction
  op_hash160 op_equal op_equalverify op_other : Instruction

pub data SighashType : Type 0 where
  sighash_all single_plus_anyone_can_pay sighash_other : SighashType

-- Scripts, signatures and hashes, as the `bitcoin` and `ripemd` crates read and make them.
pub record Scripts : Type 0 where
  pub instructions : Bytes → Option (List Instruction)
  pub signature_sighash : Bytes → Option SighashType
  pub new_p2wsh : Bytes → Bytes
  pub ripemd160 : Bytes → Bytes

abbrev pub is_equal_op : Instruction → Bool
is_equal_op op_equal = true
is_equal_op op_equalverify = true
is_equal_op _ = false

abbrev pub is_hash160 : Instruction → Bool
is_hash160 op_hash160 = true
is_hash160 _ = false

abbrev pub is_push_of : Bytes → Instruction → Bool
is_push_of bytes (push_bytes b) = text_eq b bytes
is_push_of bytes _ = false

-- OP_HASH160, the hash and an equality stand side by side.
unfoldable pub has_hash_window : Bytes → List Instruction → Bool
has_hash_window hash (a ∷ b ∷ c ∷ rest) =
    is_hash160 a && is_push_of hash b && is_equal_op c || has_hash_window hash (b ∷ c ∷ rest)
has_hash_window hash (a ∷ b ∷ []) = false
has_hash_window hash (a ∷ []) = false
has_hash_window hash [] = false

abbrev pub last : List Bytes → Option Bytes
last [] = none
last (b ∷ []) = some b
last (b ∷ c ∷ bs) = last (c ∷ bs)

abbrev pub is_single : Option SighashType → Bool
is_single (some single_plus_anyone_can_pay) = true
is_single _ = false

abbrev pub is_all_or_single : Option SighashType → Bool
is_all_or_single (some single_plus_anyone_can_pay) = true
is_all_or_single (some sighash_all) = true
is_all_or_single _ = false

-- The first candidate of the output index.
unfoldable pub find_candidate : ℕ → List (ℕ × Bytes) → Option Bytes
find_candidate vout [] = none
find_candidate vout ((v, script) ∷ cs) = if v == vout then some script else find_candidate vout cs

pub record Target : Type 0 where
  pub commitment_txid : Bytes
  pub commitment_txid_text : Text
  pub payment_hash : Bytes
  pub candidate_outputs : List (ℕ × Bytes)
  pub expected_output_script : Option Bytes
  pub expected_amount_sats : ℕ

abbrev pub differs_from : Option Bytes → Bytes → Bool
differs_from none script = false
differs_from (some expected) script = not (text_eq script expected)

module _ (s : Scripts) where
  unfoldable pub timeout_witness_script : List Bytes → Bytes → ExitResult Bytes
  timeout_witness_script witness payment_hash160 = do
    script ← ok_or (last witness) (proof "timeout witness lacks a redeem script")
    instructions ←
        ok_or (s.instructions script) (proof "timeout witness redeem script is malformed")
    reject_if (not (has_hash_window payment_hash160 instructions))
        (proof "timeout witness redeem script lacks the target payment hash")
    ok script

  unfoldable pub has_single_sighash : List Bytes → Bool
  has_single_sighash (dummy ∷ counterparty ∷ local ∷ preimage ∷ script ∷ []) =
      is_empty dummy
      && is_empty preimage
      && is_single (s.signature_sighash counterparty)
      && is_all_or_single (s.signature_sighash local)
  has_single_sighash _ = false

  -- The tests of one input that are `continue` in the loop.
  unfoldable pub binds_script : Target → Bytes → TxIn → Bool
  binds_script t commitment_script input =
      elim (timeout_witness_script input.witness (s.ripemd160 t.payment_hash)) [
        | err _ ↦ false
        | ok witness_script ↦
            text_eq (s.new_p2wsh witness_script) commitment_script
            && has_single_sighash input.witness
      ]

  unfoldable pub binds_output : Target → TxOut → Bool
  binds_output t output =
      output.value == t.expected_amount_sats
      && not (differs_from t.expected_output_script output.script_pubkey)

  -- The output that is paired with an input which proves the timeout.
  unfoldable pub matches_input : Target → TxIn → Option Bytes → Option TxOut → Option TxOut
  matches_input t input none output = none
  matches_input t input (some commitment_script) none = none
  matches_input t input (some commitment_script) (some output) =
      if text_eq input.previous_txid t.commitment_txid
        && binds_script t commitment_script input
        && binds_output t output
      then some output
      else none

  unfoldable pub timeout_proof : Target → Transaction → ℕ → TxIn → TxOut → HtlcTimeoutProof
  timeout_proof t tx index input output = record {
    timeout_txid = tx.txid;
    commitment_txid = t.commitment_txid_text;
    commitment_vout = input.previous_vout;
    timeout_input_index = index;
    timeout_output_index = index;
    timeout_amount_sats = output.value;
    timeout_output_script = output.script_pubkey;
    lock_time = tx.lock_time;
    sequence = input.sequence;
  }

  unfoldable pub find_timeout_proof :
      Target → Transaction → ℕ → List TxIn → ExitResult HtlcTimeoutProof
  find_timeout_proof t tx index [] = err (
      proof
        "timeout transaction does not bind the target HTLC hash, HTLC script, and paired output")
  find_timeout_proof t tx index (input ∷ inputs) =
      elim (matches_input t input (find_candidate input.previous_vout t.candidate_outputs)
        (get_elem? tx.output index)) [
          | none ↦ find_timeout_proof t tx (suc index) inputs
          | some output ↦ ok (timeout_proof t tx index input output)
        ]

pub record IdentifyTimeoutArgs : Type 0 where
  pub raw_hex : Text
  pub commitment_txid : Text
  pub payment_hash : Bytes
  pub candidate_vouts : List ℕ
  pub expected_commitment_script : Bytes
  pub expected_output_script : Bytes
  pub expected_amount_sats : ℕ

pub record IdentifyTimeoutByHashArgs : Type 0 where
  pub raw_hex : Text
  pub commitment_txid : Text
  pub payment_hash : Bytes
  pub candidate_outputs : List (ℕ × Bytes)
  pub expected_amount_sats : ℕ

module _ (s : Scripts) (reader : Reader) where
  unfoldable pub identify_htlc_timeout : IdentifyTimeoutArgs → ExitResult HtlcTimeoutProof
  identify_htlc_timeout args = do
    tx ← ok_or (reader.parse_transaction args.raw_hex) (transaction "{error}")
    commitment_txid ←
        ok_or (reader.parse_txid args.commitment_txid) (invalid_data "commitment txid is invalid")
    find_timeout_proof s
        (record {
          commitment_txid = commitment_txid;
          commitment_txid_text = args.commitment_txid;
          payment_hash = args.payment_hash;
          candidate_outputs =
              map (λ vout. (vout, args.expected_commitment_script)) args.candidate_vouts;
          expected_output_script = some args.expected_output_script;
          expected_amount_sats = args.expected_amount_sats;
        })
        tx 0 tx.input

  unfoldable pub identify_htlc_timeout_by_hash :
      IdentifyTimeoutByHashArgs → ExitResult HtlcTimeoutProof
  identify_htlc_timeout_by_hash args = do
    tx ← ok_or (reader.parse_transaction args.raw_hex) (transaction "{error}")
    commitment_txid ←
        ok_or (reader.parse_txid args.commitment_txid) (invalid_data "commitment txid is invalid")
    find_timeout_proof s
        (record {
          commitment_txid = commitment_txid;
          commitment_txid_text = args.commitment_txid;
          payment_hash = args.payment_hash;
          candidate_outputs = args.candidate_outputs;
          expected_output_script = none;
          expected_amount_sats = args.expected_amount_sats;
        })
        tx 0 tx.input
