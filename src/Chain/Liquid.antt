-- ===== src/Chain/Liquid.antt =====
-- src/chain/liquid.rs: the preimage of a claim. Reading a transaction is left to the `elements` crate,
-- of which only the witnesses of the inputs are read.
pub mod Transactions
pub mod Balance
pub mod Signing
use cross_network_market_mak.Prelude.{
  ◌==◌, length, get_elem?, List, [], ◌∷◌, ℕ, not, ◌||◌, Option, ok, err, ok_or, reject_if,
  if◌then◌else◌,
}
use cross_network_market_mak.Prelude.Outcome.{◌>>=◌, ◌>>◌}
use cross_network_market_mak.Prelude.Text.{Text, text_eq}
use cross_network_market_mak.Core.Primitives.{Primitives, Bytes}
use cross_network_market_mak.Chain.Types.{
  ChainResult, wrong_network, validation, serialization, chain_eq, liquid_regtest, native_bitcoin,
  asset_eq, HtlcContract,
}
use cross_network_market_mak.Chain.Script.{build_htlc_witness_script}
use cross_network_market_mak.Chain.Contract.{ScriptCrates, validate_htlc_contract}

-- The script witnesses of the inputs of an Elements transaction.
pub record ElementsCrate : Type 0 where
  pub deserialize : Bytes → Option (List (List Bytes))

module _ (p : Primitives) (s : ScriptCrates) (e : ElementsCrate) where
  unfoldable pub validate_liquid_contract : HtlcContract → ChainResult (Unit {0})
  validate_liquid_contract contract = do
    validate_htlc_contract p s contract
    reject_if
        (not (chain_eq contract.chain liquid_regtest) || asset_eq contract.asset_id native_bitcoin)
        (wrong_network "Liquid adapter requires liquid-regtest and an explicit asset")
    ok tt

  unfoldable pub expected_witness_script : HtlcContract → ChainResult Bytes
  expected_witness_script contract = do
    script ←
        build_htlc_witness_script contract.hash_lock contract.claim_pubkey contract.refund_pubkey
          contract.refund_lock_height
    ok (s.as_bytes script)

  unfoldable pub validate_preimage : HtlcContract → Bytes → ChainResult (Unit {0})
  validate_preimage contract preimage = do
    reject_if (not (text_eq (p.sha256 preimage) contract.hash_lock))
        (validation "preimage does not match the Liquid HTLC hash commitment")
    ok tt

  unfoldable pub claim_witness_preimage : List Bytes → Bytes → ChainResult Bytes
  claim_witness_preimage (sig ∷ preimage ∷ selector ∷ script ∷ []) expected =
      if not (text_eq selector (1 ∷ [])) || not (text_eq script expected)
      then err (validation "Liquid claim witness does not match the HTLC branch")
      else if not (length preimage == 32)
      then err (validation "Liquid claim witness preimage must contain 32 bytes")
      else ok preimage
  claim_witness_preimage _ expected =
      err (validation "Liquid claim witness does not match the HTLC branch")

  -- The script of a contract that was validated is always built.
  unfoldable pub extract_liquid_claim_preimage : Text → HtlcContract → ℕ → ChainResult Bytes
  extract_liquid_claim_preimage raw_hex contract input_index = do
    validate_liquid_contract contract
    bytes ← ok_or (p.hex_decode raw_hex) (serialization "Liquid transaction is not hexadecimal")
    witnesses ← ok_or (e.deserialize bytes) (serialization "{error}")
    witness ←
        ok_or (get_elem? witnesses input_index) (validation "claim input index is out of range")
    expected ← expected_witness_script contract
    preimage ← claim_witness_preimage witness expected
    validate_preimage contract preimage
    ok preimage
