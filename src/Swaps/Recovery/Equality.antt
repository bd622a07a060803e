-- ===== src/Swaps/Recovery/Equality.antt =====
-- The derived equality of recovery records decides their equality.
use cross_network_market_mak.Prelude.{◌≡◌, ◌↔◌, refl, true, arith}
use cross_network_market_mak.Prelude.Text.{text_eq_iff, option_eq_iff}
use cross_network_market_mak.Chain.Types.Laws.{asset_eq_iff, contract_eq_iff}
use cross_network_market_mak.Swaps.Recovery.{
  SwapDirection, depix_to_lightning, lightning_to_depix, direction_eq, material_eq, session_eq,
  SwapRecoveryRecord, record_eq,
}

pub direction_eq_iff : (a b : SwapDirection) → (direction_eq a b ≡ true) ↔ (a ≡ b)
unfolding direction_eq
direction_eq_iff depix_to_lightning depix_to_lightning = (λ _. refl, λ _. refl)
direction_eq_iff depix_to_lightning lightning_to_depix = (λ h. cc, λ h. cc)
direction_eq_iff lightning_to_depix depix_to_lightning = (λ h. cc, λ h. cc)
direction_eq_iff lightning_to_depix lightning_to_depix = (λ _. refl, λ _. refl)

pub record_eq-true : (a b : SwapRecoveryRecord) → record_eq a b ≡ true → a ≡ b
unfolding record_eq session_eq material_eq
record_eq-true a b h = ground (
  arith,
  direction_eq_iff a.session.direction b.session.direction,
  asset_eq_iff a.session.asset_id b.session.asset_id,
  asset_eq_iff a.session.fee_asset_id b.session.fee_asset_id,
  option_eq_iff a.session.quote_id b.session.quote_id,
  contract_eq_iff a.contract b.contract,
  text_eq_iff a.session.material.preimage b.session.material.preimage,
  text_eq_iff a.session.material.hash_commitment b.session.material.hash_commitment,
  text_eq_iff a.session.material.claim_private_key b.session.material.claim_private_key,
  text_eq_iff a.session.material.claim_public_key b.session.material.claim_public_key,
  text_eq_iff a.session.material.refund_private_key b.session.material.refund_private_key,
  text_eq_iff a.session.material.refund_public_key b.session.material.refund_public_key,
  text_eq_iff a.session.material.destination_private_key b.session.material.destination_private_key,
  text_eq_iff a.session.material.destination_public_key b.session.material.destination_public_key,
)
