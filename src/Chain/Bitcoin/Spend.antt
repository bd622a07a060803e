-- ===== src/Chain/Bitcoin/Spend.antt =====
-- src/chain/bitcoin.rs: spending an HTLC, and the preimage of a claim.
use cross_network_market_mak.Prelude.{
  ℕ, ◌-◌, leb, ◌==◌, length, get_elem?, List, [], ◌∷◌, not, ◌||◌, Option, none, some, ok, err,
  ok_or, reject_if, if◌then◌else◌,
}
use cross_network_market_mak.Prelude.Outcome.{◌>>=◌, ◌>>◌}
use cross_network_market_mak.Prelude.Text.{Text, text_eq}
use cross_network_market_mak.Core.Primitives.{Primitives, Bytes}
use cross_network_market_mak.Chain.Types.{
  ChainResult, invalid_input, validation, serialization, signature, HtlcContract,
}
use cross_network_market_mak.Chain.Contract.{ScriptCrates}
use cross_network_market_mak.Chain.Bitcoin.{
  Transaction, SignedTransaction, BitcoinSpendArgs, BitcoinCrate, spend_lock_time, spend_sequence,
  set_witness, encoded_signature, validate_bitcoin_contract, parse_script, expected_witness_script,
  expected_output_script, validate_preimage, signed_transaction,
}

module _ (p : Primitives) (s : ScriptCrates) (b : BitcoinCrate) where
  unfoldable pub build_bitcoin_htlc_spend : BitcoinSpendArgs → ChainResult Transaction
  build_bitcoin_htlc_spend args = do
    validate_bitcoin_contract p s b args.contract
    reject_if (args.fee_sats == 0 || leb args.funding_amount_sats args.fee_sats)
        (invalid_input "funding amount must exceed a positive fee")
    witness_script ← parse_script p s b args.contract.witness_script_hex
    output_script ← parse_script p s b args.contract.output_script_hex
    lock_time ← spend_lock_time args.kind args.contract.refund_lock_height
    expected_output ← expected_output_script p s b args.contract
    expected_witness ← expected_witness_script p s b args.contract
    reject_if
        (not (text_eq output_script expected_output)
          || not (text_eq witness_script expected_witness))
        (validation "contract script metadata does not match its deterministic script")
    ok (record {
      version = 2;
      lock_time = lock_time;
      input =
          record {
            previous_txid = args.funding_txid;
            previous_vout = args.funding_vout;
            sequence = spend_sequence args.kind;
            witness = [];
          }
          ∷ [];
      output =
          record {
            value = args.funding_amount_sats - args.fee_sats;
            script_pubkey = args.destination_script;
          }
          ∷ [];
    })

  unfoldable pub branch_key : HtlcContract → Option Bytes → ChainResult Bytes
  branch_key contract none = ok contract.refund_pubkey
  branch_key contract (some preimage) = do
    validate_preimage p s b contract preimage
    ok contract.claim_pubkey

  abbrev pub branch_witness : Bytes → Option Bytes → Bytes → List Bytes
  branch_witness sig (some preimage) script = sig ∷ preimage ∷ (1 ∷ []) ∷ script ∷ []
  branch_witness sig none script = sig ∷ [] ∷ script ∷ []

  unfoldable pub sign_bitcoin_htlc_spend :
      Transaction → HtlcContract → Bytes → ℕ → Option Bytes → ChainResult SignedTransaction
  sign_bitcoin_htlc_spend transaction contract private_key funding_amount_sats preimage = do
    validate_bitcoin_contract p s b contract
    witness_script ← expected_witness_script p s b contract
    expected_key ← branch_key contract preimage
    reject_if (not (text_eq (b.public_key private_key) expected_key))
        (signature "signing key does not match the selected HTLC branch")
    sighash ←
        ok_or (b.p2wsh_sighash transaction 0 witness_script funding_amount_sats)
          (signature "{error}")
    signed_transaction p s b (
        set_witness
          (branch_witness (encoded_signature (b.sign_ecdsa sighash private_key)) preimage
            witness_script)
          transaction)

  -- The witness of a claim: a signature, the preimage, one, and the script.
  unfoldable pub claim_witness_preimage : List Bytes → Bytes → ChainResult Bytes
  claim_witness_preimage (sig ∷ preimage ∷ selector ∷ script ∷ []) expected =
      if not (text_eq selector (1 ∷ [])) || not (text_eq script expected)
      then err (validation "claim witness does not match the HTLC branch")
      else if not (length preimage == 32)
      then err (validation "claim witness preimage must contain 32 bytes")
      else ok preimage
  claim_witness_preimage _ expected =
      err (validation "claim witness does not match the HTLC branch")

  -- The script of a contract that was validated is always built.
  unfoldable pub extract_claim_preimage : Text → HtlcContract → ℕ → ChainResult Bytes
  extract_claim_preimage raw_hex contract input_index = do
    validate_bitcoin_contract p s b contract
    transaction ← ok_or (b.deserialize_hex raw_hex) (serialization "{error}")
    input ←
        ok_or (get_elem? transaction.input input_index)
          (validation "claim input index is out of range")
    expected ← expected_witness_script p s b contract
    preimage ← claim_witness_preimage input.witness expected
    validate_preimage p s b contract preimage
    ok preimage
