-- ===== src/Core/Settlement/Evidence/Laws.antt =====
-- What accepted evidence proves, and what its public form keeps back.
use cross_network_market_mak.Prelude.{
  ◌<◌, ◌≡◌, true, false, some, ok, arith, Option-cases, inl, inr, refl, ◌↔◌, length,
}
use cross_network_market_mak.Prelude.Text.{Text, text_eq_iff, codes}
use cross_network_market_mak.Core.Primitives.{Primitives, Bytes}
use cross_network_market_mak.Core.Amount.{is_empty}
use cross_network_market_mak.Core.Hash.{hash_preimage, as_hex, from_preimage}
use cross_network_market_mak.Core.Settlement.{PaymentEvidence, LightningEvidence, ChainEvidence}
use cross_network_market_mak.Core.Settlement.Evidence.{validate_against, public}

module _ (p : Primitives) where
  -- Accepted Lightning evidence is of a payment that succeeded, of the expected amount, with 32
  -- bytes that hash to the expected commitment.
  pub validate_against-lightning :
      (e : LightningEvidence) (hash amount : Text)
      → validate_against p (PaymentEvidence.lightning e) hash amount ≡ ok tt
      → (e.amount_msat ≡ amount)
        × (e.payment_hash ≡ hash)
        × (e.observed_state ≡ codes "SUCCEEDED")
        × (preimage : Bytes) × (p.hex_decode e.preimage_hex ≡ some preimage)
        × (length preimage ≡ 32)
        × (p.hex_encode (p.sha256 preimage) ≡ hash)
  unfolding validate_against hash_preimage as_hex from_preimage
  validate_against-lightning e hash amount h = elim (Option-cases (p.hex_decode e.preimage_hex)) [
    | inl unread ↦ absurd (ground (arith, unread))
    | inr (x, read) ↦ (
      ground (arith, text_eq_iff e.amount_msat amount),
      ground (arith, text_eq_iff e.payment_hash hash),
      ground (arith, text_eq_iff e.observed_state (codes "SUCCEEDED")),
      x,
      read,
      ground (arith, read),
      ground (arith, read, text_eq_iff (p.hex_encode (p.sha256 x)) hash),
    )
  ]

  -- Chain evidence is accepted if it has the expected amount and commitment, an outpoint, a script
  -- that was verified and at least one confirmation; and only then.
  pub validate_against-chain_iff :
      (e : ChainEvidence) (hash amount : Text)
      → (validate_against p (PaymentEvidence.chain e) hash amount ≡ ok tt) ↔ (
          (e.amount ≡ amount)
          × (e.hash_commitment ≡ hash)
          × (is_empty e.outpoint ≡ false)
          × (e.script_verified ≡ true)
          × (0 < e.confirmations))
  unfolding validate_against
  validate_against-chain_iff e hash amount =
      ground (arith, text_eq_iff e.amount amount, text_eq_iff e.hash_commitment hash)

-- The public form of evidence does not depend on the preimage.
pub public_hides_preimage :
    (e : LightningEvidence) (preimage : Text)
    → public (PaymentEvidence.lightning (record e { preimage_hex = preimage }))
      ≡ public (PaymentEvidence.lightning e)
unfolding public
public_hides_preimage e preimage = refl
