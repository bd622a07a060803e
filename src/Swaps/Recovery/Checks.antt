-- ===== src/Swaps/Recovery/Checks.antt =====
-- src/swaps/recovery.rs: making the key material of a swap, and its checks. Random bytes are arguments.
use cross_network_market_mak.Prelude.{
  ℕ, ◌==◌, Bool, not, ◌||◌, Option, none, some, ok, err, ok_or, reject_if,
}
use cross_network_market_mak.Prelude.Outcome.{◌>>=◌, ◌>>◌}
use cross_network_market_mak.Prelude.Text.{Text, text_eq}
use cross_network_market_mak.Core.Primitives.{Primitives, Bytes}
use cross_network_market_mak.Chain.Types.{
  Chain, chain_eq, AssetId, asset_eq, ChainResult, HtlcContract, contract_eq,
}
use cross_network_market_mak.Chain.Contract.{ScriptCrates, create_htlc_contract}
use cross_network_market_mak.Swaps.Error.{SwapResult, recovery_mismatch, chain}
use cross_network_market_mak.Swaps.Recovery.{
  SwapDirection, direction_eq, SwapKeyMaterial, SwapRecoveryRecord,
}

-- `secp256k1`: which 32 bytes are a secret key, and its public key.
pub record KeyCrate : Type 0 where
  pub public_key : Bytes → Option Bytes

pub record PrepareRecoveryRequest : Type 0 where
  pub direction : SwapDirection
  pub chain : Chain
  pub asset_id : AssetId
  pub fee_asset_id : AssetId
  pub amount_sats : ℕ
  pub asset_amount_sats : ℕ
  pub fee_sats : ℕ
  pub refund_lock_height : ℕ
  pub quote_id : Option Text
  pub supplied_material : Option SwapKeyMaterial

-- The random bytes that fresh material is made of: three secret keys with their public keys.
pub record Secrets : Type 0 where
  pub preimage : Bytes
  pub claim_secret : Bytes
  pub claim_public : Bytes
  pub refund_secret : Bytes
  pub refund_public : Bytes
  pub destination_secret : Bytes
  pub destination_public : Bytes

-- `ChainError` as a text.
abbrev pub of_chain {ℓ} : {A : Type ℓ} → ChainResult A → SwapResult A
of_chain (ok a) = ok a
of_chain (err e) = err (chain "{error}")

module _ (p : Primitives) (s : ScriptCrates) (k : KeyCrate) where
  unfoldable pub generate_swap_secrets : Secrets → SwapKeyMaterial
  generate_swap_secrets r = record {
    preimage = r.preimage;
    hash_commitment = p.sha256 r.preimage;
    claim_private_key = r.claim_secret;
    claim_public_key = r.claim_public;
    refund_private_key = r.refund_secret;
    refund_public_key = r.refund_public;
    destination_private_key = r.destination_secret;
    destination_public_key = r.destination_public;
  }

  unfoldable pub validate_key_pair : Bytes → Bytes → SwapResult (Unit {0})
  validate_key_pair private_key public_key = do
    derived ← ok_or (k.public_key private_key) (recovery_mismatch "invalid private key")
    reject_if (not (text_eq derived public_key)) (recovery_mismatch "private/public key mismatch")
    ok tt

  unfoldable pub validate_material : SwapKeyMaterial → SwapResult (Unit {0})
  validate_material m = do
    reject_if (not (text_eq (p.sha256 m.preimage) m.hash_commitment))
        (recovery_mismatch "preimage hash differs")
    validate_key_pair m.claim_private_key m.claim_public_key
    validate_key_pair m.refund_private_key m.refund_public_key
    validate_key_pair m.destination_private_key m.destination_public_key

  abbrev pub differs : SwapRecoveryRecord → PrepareRecoveryRequest → Bool
  differs r q =
      not (r.version == 1)
      || not (direction_eq r.session.direction q.direction)
      || not (asset_eq r.session.asset_id q.asset_id)
      || not (asset_eq r.session.fee_asset_id q.fee_asset_id)
      || not (r.session.amount_sats == q.amount_sats)
      || not (r.session.asset_amount_sats == q.asset_amount_sats)
      || not (r.session.fee_sats == q.fee_sats)
      || not (chain_eq r.contract.chain q.chain)
      || not (asset_eq r.contract.asset_id q.asset_id)

  unfoldable pub make_contract :
      PrepareRecoveryRequest → SwapKeyMaterial → ℕ → SwapResult HtlcContract
  make_contract q m refund_lock_height = of_chain (
      create_htlc_contract p s q.chain q.asset_id m.hash_commitment m.claim_public_key
        m.refund_public_key refund_lock_height)

  unfoldable pub validate_recovery :
      SwapRecoveryRecord → PrepareRecoveryRequest → SwapResult (Unit {0})
  validate_recovery r q = do
    reject_if (differs r q) (recovery_mismatch "recovery session terms differ")
    validate_material r.session.material
    expected ← make_contract q r.session.material r.session.refund_lock_height
    reject_if (not (contract_eq expected r.contract))
        (recovery_mismatch "contract metadata differs")
    ok tt

  abbrev pub is_vacant : PrepareRecoveryRequest → Bool
  is_vacant q = q.amount_sats == 0 || q.asset_amount_sats == 0 || q.refund_lock_height == 0

  unfoldable pub request_material : PrepareRecoveryRequest → Secrets → SwapKeyMaterial
  request_material q secrets = elim q.supplied_material as (λ _. SwapKeyMaterial) [
    | some material ↦ material
    | none ↦ generate_swap_secrets secrets
  ]

  unfoldable pub new_record :
      PrepareRecoveryRequest → SwapKeyMaterial → SwapResult SwapRecoveryRecord
  new_record q material = do
    validate_material material
    contract ← make_contract q material q.refund_lock_height
    ok (record {
      version = 1;
      session = record {
        direction = q.direction;
        material = material;
        asset_id = q.asset_id;
        fee_asset_id = q.fee_asset_id;
        amount_sats = q.amount_sats;
        asset_amount_sats = q.asset_amount_sats;
        fee_sats = q.fee_sats;
        refund_lock_height = q.refund_lock_height;
        quote_id = q.quote_id;
      };
      contract = contract;
    })
