-- ===== src/Chain/Bitcoin.antt =====
-- src/chain/bitcoin.rs. Keys, signatures, sighashes and the serialization of transactions are
-- parameters; the script of an input is always empty and left out.
pub mod Spend
pub mod Extraction
use cross_network_market_mak.Prelude.{
  ℕ, ◌+◌, ◌-◌, ◌^◌, ltb, leb, ◌==◌, length, any, get_elem?, suc, zero, List, [], ◌∷◌, ◌++◌, Bool,
  true, false, not, ◌&&◌, ◌||◌, Option, none, some, ok, err, ok_or, reject_if, if◌then◌else◌,
}
use cross_network_market_mak.Prelude.Outcome.{◌>>=◌, ◌>>◌}
use cross_network_market_mak.Prelude.Text.{Text, text_eq}
use cross_network_market_mak.Core.Primitives.{Primitives, Bytes}
use cross_network_market_mak.Core.Storage.Reservations.{checked_add}
use cross_network_market_mak.Chain.Types.{
  ChainResult, invalid_input, wrong_network, validation, serialization, signature, chain_eq,
  bitcoin_regtest, native_bitcoin, asset_eq, HtlcContract,
}
use cross_network_market_mak.Chain.Script.{Script, build_htlc_witness_script}
use cross_network_market_mak.Chain.Contract.{ScriptCrates, validate_htlc_contract}

pub record TxIn : Type 0 where
  pub previous_txid : Bytes
  pub previous_vout : ℕ
  pub sequence : ℕ
  pub witness : List Bytes

pub record TxOut : Type 0 where
  pub value : ℕ
  pub script_pubkey : Bytes

pub record Transaction : Type 0 where
  pub version : ℕ
  pub lock_time : ℕ
  pub input : List TxIn
  pub output : List TxOut

pub record BitcoinUtxo : Type 0 where
  pub txid : Text
  pub vout : ℕ
  pub amount_sats : ℕ
  pub script_pubkey : Bytes
  pub confirmations : ℕ

pub record SignedTransaction : Type 0 where
  pub raw_hex : Text
  pub txid : Text

pub data SpendKind : Type 0 where
  claim refund : SpendKind

pub record BitcoinFundingArgs : Type 0 where
  pub contract : HtlcContract
  pub input : BitcoinUtxo
  pub htlc_amount_sats : ℕ
  pub change_amount_sats : ℕ
  pub fee_sats : ℕ
  pub change_script : Bytes

pub record BitcoinSpendArgs : Type 0 where
  pub contract : HtlcContract
  pub funding_txid : Bytes
  pub funding_vout : ℕ
  pub funding_amount_sats : ℕ
  pub fee_sats : ℕ
  pub kind : SpendKind
  pub destination_script : Bytes

-- What the `bitcoin` and `secp256k1` crates do.
pub record BitcoinCrate : Type 0 where
  pub parse_txid : Text → Option Bytes
  pub public_key : Bytes → Bytes
  pub new_p2wpkh : Bytes → Bytes
  pub p2wpkh_sighash : Transaction → ℕ → Bytes → ℕ → Option Bytes
  pub p2wsh_sighash : Transaction → ℕ → Bytes → ℕ → Option Bytes
  pub sign_ecdsa : Bytes → Bytes → Bytes
  pub serialize_hex : Transaction → Text
  pub deserialize_hex : Text → Option Transaction
  pub compute_txid : Transaction → Text

unfoldable pub validate_funding_amounts : BitcoinFundingArgs → ChainResult (Unit {0})
validate_funding_amounts args = do
  spent ←
      ok_or (checked_add args.htlc_amount_sats args.change_amount_sats)
        (invalid_input "Bitcoin funding amount overflow")
  required ←
      ok_or (checked_add spent args.fee_sats) (invalid_input "Bitcoin funding amount overflow")
  reject_if (args.fee_sats == 0 || not (args.input.amount_sats == required))
      (invalid_input "funding input must equal HTLC amount plus change plus positive fee")
  ok tt

unfoldable pub funding_outputs : BitcoinFundingArgs → Bytes → List TxOut
funding_outputs args htlc_script =
    record { value = args.htlc_amount_sats; script_pubkey = htlc_script }
    ∷ (if args.change_amount_sats == 0
        then []
        else record { value = args.change_amount_sats; script_pubkey = args.change_script } ∷ [])

-- `u32::try_from`.
abbrev pub to_u32 : ℕ → Option ℕ
to_u32 n = if ltb n (2 ^ 32) then some n else none

unfoldable pub spend_lock_time : SpendKind → ℕ → ChainResult ℕ
spend_lock_time claim refund_lock_height = ok 0
spend_lock_time refund refund_lock_height =
    ok_or (to_u32 refund_lock_height) (invalid_input "refund lock height exceeds u32")

unfoldable pub spend_sequence : SpendKind → ℕ
spend_sequence claim = 0xfffffffd
spend_sequence refund = 0xfffffffe

abbrev pub set_first : List Bytes → List TxIn → List TxIn
set_first witness [] = []
set_first witness (i ∷ is) = record i { witness = witness } ∷ is

-- `transaction.input[0].witness = witness`; there is no sighash of an input that is missing.
unfoldable pub set_witness : List Bytes → Transaction → Transaction
set_witness witness tx = record tx { input = set_first witness tx.input }

abbrev pub no_witness : TxIn → Bool
no_witness i = elim i.witness as (λ _. Bool) [ [] ↦ true | _ ∷ _ ↦ false ]

-- The signature in DER, and the byte of SIGHASH_ALL.
abbrev pub encoded_signature : Bytes → Bytes
encoded_signature der = der ++ 1 ∷ []

module _ (p : Primitives) (s : ScriptCrates) (b : BitcoinCrate) where
  unfoldable pub validate_bitcoin_contract : HtlcContract → ChainResult (Unit {0})
  validate_bitcoin_contract contract = do
    validate_htlc_contract p s contract
    reject_if
        (not (chain_eq contract.chain bitcoin_regtest)
          || not (asset_eq contract.asset_id native_bitcoin))
        (wrong_network "Bitcoin adapter requires bitcoin-regtest and native BTC")
    ok tt

  unfoldable pub parse_script : Text → ChainResult Bytes
  parse_script value = ok_or (p.hex_decode value) (invalid_input "{label} is not hexadecimal")

  unfoldable pub parse_txid : Text → ChainResult Bytes
  parse_txid value = ok_or (b.parse_txid value) (invalid_input "funding txid is malformed")

  unfoldable pub expected_witness_script : HtlcContract → ChainResult Bytes
  expected_witness_script contract = do
    script ←
        build_htlc_witness_script contract.hash_lock contract.claim_pubkey contract.refund_pubkey
          contract.refund_lock_height
    ok (s.as_bytes script)

  unfoldable pub expected_output_script : HtlcContract → ChainResult Bytes
  expected_output_script contract = do
    script ← expected_witness_script contract
    ok (s.to_p2wsh script)

  unfoldable pub validate_preimage : HtlcContract → Bytes → ChainResult (Unit {0})
  validate_preimage contract preimage = do
    reject_if (not (text_eq (p.sha256 preimage) contract.hash_lock))
        (validation "preimage does not match the HTLC hash commitment")
    ok tt

  unfoldable pub signed_transaction : Transaction → ChainResult SignedTransaction
  signed_transaction transaction = do
    reject_if (any no_witness transaction.input)
        (validation "transaction contains an unsigned input")
    ok (record { raw_hex = b.serialize_hex transaction; txid = b.compute_txid transaction })

  unfoldable pub build_bitcoin_funding_transaction : BitcoinFundingArgs → ChainResult Transaction
  build_bitcoin_funding_transaction args = do
    validate_funding_amounts args
    validate_bitcoin_contract args.contract
    htlc_script ← parse_script args.contract.output_script_hex
    txid ← parse_txid args.input.txid
    ok (record {
      version = 2;
      lock_time = 0;
      input =
          record {
            previous_txid = txid;
            previous_vout = args.input.vout;
            sequence = 0xfffffffd;
            witness = [];
          }
          ∷ [];
      output = funding_outputs args htlc_script;
    })

  -- A funding transaction has one input, which spends the selected output.
  unfoldable pub only_input : Transaction → ChainResult TxIn
  only_input tx = elim tx.input as (λ _. ChainResult TxIn) [
    | i ∷ is ↦ elim is as (λ _. ChainResult TxIn) [
      | [] ↦ ok i
      | _ ∷ _ ↦ err (validation "Bitcoin funding transaction must contain one wallet input")
    ]
    | [] ↦ err (validation "Bitcoin funding transaction must contain one wallet input")
  ]

  unfoldable pub sign_bitcoin_funding_transaction :
      Transaction → BitcoinUtxo → Bytes → ChainResult SignedTransaction
  sign_bitcoin_funding_transaction transaction input private_key = do
    first ← only_input transaction
    txid ← parse_txid input.txid
    reject_if (not (text_eq first.previous_txid txid) || not (first.previous_vout == input.vout))
        (validation "Bitcoin funding input does not match the selected UTXO")
    reject_if (not (text_eq (b.new_p2wpkh (b.public_key private_key)) input.script_pubkey))
        (signature "funding key does not match the wallet input script")
    sighash ←
        ok_or (b.p2wpkh_sighash transaction 0 input.script_pubkey input.amount_sats)
          (signature "{error}")
    signed_transaction (
        set_witness
          (encoded_signature (b.sign_ecdsa sighash private_key) ∷ b.public_key private_key ∷ [])
          transaction)
