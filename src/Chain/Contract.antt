-- ===== src/Chain/Contract.antt =====
-- src/chain/contract.rs. Script bytes, script hashes and addresses are parameters.
pub mod Laws
use cross_network_market_mak.Prelude.{ℕ, not, Option, ok, err, ok_or, reject_if}
use cross_network_market_mak.Prelude.Outcome.{◌>>=◌, ◌>>◌}
use cross_network_market_mak.Prelude.Text.{Text, text_eq}
use cross_network_market_mak.Core.Primitives.{Primitives, Bytes}
use cross_network_market_mak.Chain.Types.{
  ChainResult, invalid_input, validation, serialization, Chain, bitcoin_regtest, liquid_regtest,
  AssetId, native_bitcoin, explicit, HtlcContract, contract_eq,
}
use cross_network_market_mak.Chain.Script.{Script, build_htlc_witness_script}

-- What the `bitcoin` and `elements` crates do with scripts.
pub record ScriptCrates : Type 0 where
  pub as_bytes : Script → Bytes
  pub to_p2wsh : Bytes → Bytes
  pub bitcoin_p2wsh : Bytes → Text
  pub elements_from_hex : Text → Option Bytes
  pub elements_to_v0_p2wsh : Bytes → Bytes
  pub elements_p2wsh : Bytes → Text

unfoldable pub validate_asset : Chain → AssetId → ChainResult (Unit {0})
validate_asset bitcoin_regtest native_bitcoin = ok tt
validate_asset bitcoin_regtest (explicit _) =
    err (invalid_input "Bitcoin HTLC must use native BTC asset")
validate_asset liquid_regtest (explicit _) = ok tt
validate_asset liquid_regtest native_bitcoin =
    err (invalid_input "Liquid HTLC must use an explicit asset id")

module _ (p : Primitives) (s : ScriptCrates) where
  unfoldable pub contract_address : Chain → Bytes → Bytes → ChainResult Text
  contract_address bitcoin_regtest witness_script output_script =
      ok (s.bitcoin_p2wsh witness_script)
  contract_address liquid_regtest witness_script output_script = do
    elements_witness ←
        ok_or (s.elements_from_hex (p.hex_encode witness_script)) (serialization "{error}")
    reject_if (not (text_eq (s.elements_to_v0_p2wsh elements_witness) output_script))
        (validation "Liquid P2WSH output differs from deterministic witness script")
    ok (s.elements_p2wsh elements_witness)

  unfoldable pub create_htlc_contract :
      Chain → AssetId → Bytes → Bytes → Bytes → ℕ → ChainResult HtlcContract
  create_htlc_contract chain asset_id hash_lock claim_pubkey refund_pubkey refund_lock_height = do
    validate_asset chain asset_id
    script ← build_htlc_witness_script hash_lock claim_pubkey refund_pubkey refund_lock_height
    let witness_script = s.as_bytes script
    let output_script = s.to_p2wsh witness_script
    address ← contract_address chain witness_script output_script
    ok (record {
      chain = chain;
      asset_id = asset_id;
      hash_lock = hash_lock;
      claim_pubkey = claim_pubkey;
      refund_pubkey = refund_pubkey;
      refund_lock_height = refund_lock_height;
      witness_script_hex = p.hex_encode witness_script;
      output_script_hex = p.hex_encode output_script;
      address = address;
    })

  unfoldable pub validate_htlc_contract : HtlcContract → ChainResult (Unit {0})
  validate_htlc_contract contract = do
    rebuilt ←
        create_htlc_contract contract.chain contract.asset_id contract.hash_lock
          contract.claim_pubkey contract.refund_pubkey contract.refund_lock_height
    reject_if (not (contract_eq rebuilt contract))
        (validation "saved HTLC metadata does not match its deterministic contract")
    ok tt
