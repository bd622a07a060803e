-- ===== src/Swaps/Recovery.antt =====
-- src/swaps/recovery.rs: the record that a swap is recovered from.
pub mod Checks
pub mod Files
pub mod Equality
pub mod Laws
pub mod WriteOnce
pub mod Replay
use cross_network_market_mak.Prelude.{ℕ, ◌==◌, Bool, true, false, ◌&&◌, Option}
use cross_network_market_mak.Prelude.Text.{Text, text_eq, option_eq}
use cross_network_market_mak.Core.Primitives.{Bytes}
use cross_network_market_mak.Chain.Types.{Chain, AssetId, asset_eq, HtlcContract, contract_eq}

pub data SwapDirection : Type 0 where
  depix_to_lightning lightning_to_depix : SwapDirection

unfoldable pub direction_eq : SwapDirection → SwapDirection → Bool
direction_eq depix_to_lightning depix_to_lightning = true
direction_eq lightning_to_depix lightning_to_depix = true
direction_eq _ _ = false

pub record SwapKeyMaterial : Type 0 where
  pub preimage : Bytes
  pub hash_commitment : Bytes
  pub claim_private_key : Bytes
  pub claim_public_key : Bytes
  pub refund_private_key : Bytes
  pub refund_public_key : Bytes
  pub destination_private_key : Bytes
  pub destination_public_key : Bytes

unfoldable pub material_eq : SwapKeyMaterial → SwapKeyMaterial → Bool
material_eq a b =
    text_eq a.preimage b.preimage
    && text_eq a.hash_commitment b.hash_commitment
    && text_eq a.claim_private_key b.claim_private_key
    && text_eq a.claim_public_key b.claim_public_key
    && text_eq a.refund_private_key b.refund_private_key
    && text_eq a.refund_public_key b.refund_public_key
    && text_eq a.destination_private_key b.destination_private_key
    && text_eq a.destination_public_key b.destination_public_key

pub record PreparedSwapSession : Type 0 where
  pub direction : SwapDirection
  pub material : SwapKeyMaterial
  pub asset_id : AssetId
  pub fee_asset_id : AssetId
  pub amount_sats : ℕ
  pub asset_amount_sats : ℕ
  pub fee_sats : ℕ
  pub refund_lock_height : ℕ
  pub quote_id : Option Text

unfoldable pub session_eq : PreparedSwapSession → PreparedSwapSession → Bool
session_eq a b =
    direction_eq a.direction b.direction
    && material_eq a.material b.material
    && asset_eq a.asset_id b.asset_id
    && asset_eq a.fee_asset_id b.fee_asset_id
    && a.amount_sats == b.amount_sats
    && a.asset_amount_sats == b.asset_amount_sats
    && a.fee_sats == b.fee_sats
    && a.refund_lock_height == b.refund_lock_height
    && option_eq a.quote_id b.quote_id

pub record SwapRecoveryRecord : Type 0 where
  pub version : ℕ
  pub session : PreparedSwapSession
  pub contract : HtlcContract

unfoldable pub record_eq : SwapRecoveryRecord → SwapRecoveryRecord → Bool
record_eq a b =
    a.version == b.version && session_eq a.session b.session && contract_eq a.contract b.contract
