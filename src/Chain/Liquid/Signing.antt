-- ===== src/Chain/Liquid/Signing.antt =====
-- src/chain/liquid.rs: signing. Keys, signatures, sighashes and serialization are left to the `elements`
-- and `secp256k1` crates; the public key of a secret key is compressed.
use cross_network_market_mak.Prelude.{
  ℕ, zero, suc, ◌==◌, length, any, List, [], ◌∷◌, not, ◌&&◌, Option, none, some, ok, ok_or,
  reject_if, Bool, false, get_elem?,
}
use cross_network_market_mak.Prelude.Outcome.{◌>>=◌, ◌>>◌}
use cross_network_market_mak.Prelude.Text.{Text, text_eq}
use cross_network_market_mak.Core.Primitives.{Primitives, Bytes}
use cross_network_market_mak.Chain.Types.{ChainResult, validation, signature, HtlcContract}
use cross_network_market_mak.Chain.Contract.{ScriptCrates}
use cross_network_market_mak.Chain.Bitcoin.{TxIn, SignedTransaction, no_witness, encoded_signature}
use cross_network_market_mak.Chain.Liquid.{
  ElementsCrate, validate_liquid_contract, expected_witness_script, validate_preimage,
}
use cross_network_market_mak.Chain.Liquid.Transactions.{
  LiquidUtxo, LiquidTransaction, ElementsTexts, parse_outpoint,
}

pub record ElementsSigner : Type 0 where
  pub public_key : Bytes → Bytes
  pub new_p2wpkh : Bytes → Bytes
  pub p2wpkh_script_code : Bytes → Option Bytes
  pub segwitv0_sighash : LiquidTransaction → ℕ → Bytes → ℕ → Bytes
  pub sign_ecdsa : Bytes → Bytes → Bytes
  pub serialize_hex : LiquidTransaction → Text
  pub txid : LiquidTransaction → Text

-- `transaction.input[index].witness.script_witness = witness`.
abbrev pub set_at : ℕ → List Bytes → List TxIn → List TxIn
set_at index witness [] = []
set_at zero witness (i ∷ is) = record i { witness = witness } ∷ is
set_at (suc index) witness (i ∷ is) = i ∷ set_at index witness is

unfoldable pub set_script_witness : ℕ → List Bytes → LiquidTransaction → LiquidTransaction
set_script_witness index witness tx = record tx { input = set_at index witness tx.input }

-- The input at the index spends the outpoint.
abbrev pub spends_at : LiquidTransaction → ℕ → Bytes × ℕ → Bool
spends_at tx index (txid, vout) = elim (get_elem? tx.input index) as (λ _. Bool) [
  | none ↦ false
  | some i ↦ text_eq i.previous_txid txid && i.previous_vout == vout
]

module _ (p : Primitives) (s : ScriptCrates) (e : ElementsCrate) (x : ElementsTexts)
    (g : ElementsSigner) where
  unfoldable pub liquid_signed_transaction : LiquidTransaction → ChainResult SignedTransaction
  liquid_signed_transaction tx = do
    reject_if (any no_witness tx.input) (validation "Liquid transaction contains an unsigned input")
    ok (record { raw_hex = g.serialize_hex tx; txid = g.txid tx })

  unfoldable pub sign_p2wpkh_input :
      LiquidTransaction → ℕ → LiquidUtxo → Bytes → ChainResult LiquidTransaction
  sign_p2wpkh_input tx input_index input private_key = do
    let expected_script = g.new_p2wpkh (g.public_key private_key)
    reject_if (not (text_eq expected_script input.script_pubkey))
        (signature "Liquid wallet key does not match the input script")
    script_code ←
        ok_or (g.p2wpkh_script_code expected_script) (signature "wallet input is not P2WPKH")
    let sighash = g.segwitv0_sighash tx input_index script_code input.amount_sats
    ok (
        set_script_witness input_index
          (encoded_signature (g.sign_ecdsa sighash private_key) ∷ g.public_key private_key ∷ []) tx)

  unfoldable pub sign_liquid_funding_transaction :
      LiquidTransaction → LiquidUtxo → LiquidUtxo → Bytes → Bytes → ChainResult SignedTransaction
  sign_liquid_funding_transaction tx payment_input fee_input payment_key fee_key = do
    reject_if (not (length tx.input == 2))
        (validation "Liquid funding transaction must contain payment and fee inputs")
    payment_outpoint ← parse_outpoint p s e x payment_input
    reject_if (not (spends_at tx 0 payment_outpoint))
        (validation "Liquid funding inputs do not match the selected UTXOs")
    fee_outpoint ← parse_outpoint p s e x fee_input
    reject_if (not (spends_at tx 1 fee_outpoint))
        (validation "Liquid funding inputs do not match the selected UTXOs")
    once ← sign_p2wpkh_input tx 0 payment_input payment_key
    twice ← sign_p2wpkh_input once 1 fee_input fee_key
    liquid_signed_transaction twice

  unfoldable pub liquid_branch_key : HtlcContract → Option Bytes → ChainResult Bytes
  liquid_branch_key contract none = ok contract.refund_pubkey
  liquid_branch_key contract (some preimage) = do
    validate_preimage p s e contract preimage
    ok contract.claim_pubkey

  abbrev pub liquid_branch_witness : Bytes → Option Bytes → Bytes → List Bytes
  liquid_branch_witness sig (some preimage) script = sig ∷ preimage ∷ (1 ∷ []) ∷ script ∷ []
  liquid_branch_witness sig none script = sig ∷ [] ∷ script ∷ []

  unfoldable pub sign_liquid_htlc_spend :
      LiquidTransaction
      → HtlcContract
      → LiquidUtxo
      → Bytes
      → Bytes
      → ℕ
      → Option Bytes
      → ChainResult SignedTransaction
  sign_liquid_htlc_spend tx contract fee_input htlc_key fee_key funding_amount_sats preimage = do
    validate_liquid_contract p s e contract
    reject_if (not (length tx.input == 2))
        (validation "Liquid HTLC spend must contain HTLC and fee inputs")
    fee_outpoint ← parse_outpoint p s e x fee_input
    reject_if (not (spends_at tx 1 fee_outpoint))
        (validation "Liquid fee input does not match the selected UTXO")
    witness_script ← expected_witness_script p s e contract
    expected_key ← liquid_branch_key contract preimage
    reject_if (not (text_eq (g.public_key htlc_key) expected_key))
        (signature "HTLC signing key does not match the selected Liquid branch")
    let sighash = g.segwitv0_sighash tx 0 witness_script funding_amount_sats
    signed ←
        sign_p2wpkh_input
          (set_script_witness 0
            (liquid_branch_witness (encoded_signature (g.sign_ecdsa sighash htlc_key)) preimage
              witness_script)
            tx)
          1 fee_input fee_key
    liquid_signed_transaction signed
