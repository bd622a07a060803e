-- ===== src/Chain/Types/Laws.antt =====
-- The derived equalities decide equality, and the text of an asset is read back.
use cross_network_market_mak.Prelude.{◌≡◌, ◌↔◌, refl, true, arith}
use cross_network_market_mak.Prelude.Text.{text_eq_iff, text_eq_refl}
use cross_network_market_mak.Chain.Types.{
  Chain, bitcoin_regtest, liquid_regtest, chain_eq, AssetId, native_bitcoin, explicit, asset_eq,
  HtlcContract, contract_eq,
}

pub chain_eq_iff : (a b : Chain) → (chain_eq a b ≡ true) ↔ (a ≡ b)
unfolding chain_eq
chain_eq_iff bitcoin_regtest bitcoin_regtest = (λ _. refl, λ _. refl)
chain_eq_iff bitcoin_regtest liquid_regtest = (λ h. cc, λ h. cc)
chain_eq_iff liquid_regtest bitcoin_regtest = (λ h. cc, λ h. cc)
chain_eq_iff liquid_regtest liquid_regtest = (λ _. refl, λ _. refl)

pub asset_eq_iff : (a b : AssetId) → (asset_eq a b ≡ true) ↔ (a ≡ b)
unfolding asset_eq
asset_eq_iff native_bitcoin native_bitcoin = (λ _. refl, λ _. refl)
asset_eq_iff native_bitcoin (explicit b) = (λ h. cc, λ h. cc)
asset_eq_iff (explicit a) native_bitcoin = (λ h. cc, λ h. cc)
asset_eq_iff (explicit a) (explicit b) = ground (arith, text_eq_iff a b)

pub contract_eq-true : (a b : HtlcContract) → contract_eq a b ≡ true → a ≡ b
unfolding contract_eq
contract_eq-true a b h = ground (
  arith,
  chain_eq_iff a.chain b.chain,
  asset_eq_iff a.asset_id b.asset_id,
  text_eq_iff a.hash_lock b.hash_lock,
  text_eq_iff a.claim_pubkey b.claim_pubkey,
  text_eq_iff a.refund_pubkey b.refund_pubkey,
  text_eq_iff a.witness_script_hex b.witness_script_hex,
  text_eq_iff a.output_script_hex b.output_script_hex,
  text_eq_iff a.address b.address,
)

pub contract_eq_refl : (a : HtlcContract) → contract_eq a a ≡ true
unfolding contract_eq
contract_eq_refl a = ground (
  arith,
  chain_eq_iff a.chain a.chain,
  asset_eq_iff a.asset_id a.asset_id,
  text_eq_refl a.hash_lock,
  text_eq_refl a.claim_pubkey,
  text_eq_refl a.refund_pubkey,
  text_eq_refl a.witness_script_hex,
  text_eq_refl a.output_script_hex,
  text_eq_refl a.address,
)

pub contract_eq_iff : (a b : HtlcContract) → (contract_eq a b ≡ true) ↔ (a ≡ b)
contract_eq_iff a b = (contract_eq-true a b, λ e. rw e (contract_eq_refl b))
