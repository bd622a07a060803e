-- ===== src/Core/Rfq/Laws.antt =====
-- What the accepted terms of a quote guarantee.
use cross_network_market_mak.Prelude.{
  if◌then◌else◌, ℕ, ◌+◌, ◌<◌, ◌≡◌, ◌↔◌, Option, none, some, ok, arith, ◌^◌, refl, true,
  Option-cases, inl, inr,
}
use cross_network_market_mak.Core.Network.{network_eq, lightning_regtest}
use cross_network_market_mak.Core.Rfq.{DeadlineContext, Quote}
use cross_network_market_mak.Core.Rfq.Terms.{option_ℕ_eq, lacks_margin, validate_deadline_order}

-- An optional time is in 64 bits.
abbrev pub FitsU64 : Option ℕ → Type 0
FitsU64 none = Unit
FitsU64 (some n) = n < 2 ^ 64

-- With a Lightning expiry, the source leg's deadline is later than the destination leg's by more than
-- the margin; the Lightning expiry is the deadline of the leg on Lightning.
abbrev pub LeavesMargin : Quote → DeadlineContext → Option ℕ → Type 0
LeavesMargin quote context none = Unit
LeavesMargin quote context (some expiry) =
    (if network_eq quote.source.network lightning_regtest
        then context.destination_refund_at
        else expiry)
      + context.margin_seconds
    < (if network_eq quote.source.network lightning_regtest
        then expiry
        else context.source_refund_at)

option_ℕ_eq_iff : (a b : Option ℕ) → (option_ℕ_eq a b ≡ true) ↔ (a ≡ b)
unfolding option_ℕ_eq
option_ℕ_eq_iff none none = (λ _. refl, λ _. refl)
option_ℕ_eq_iff none (some b) = (λ h. cc, λ h. cc)
option_ℕ_eq_iff (some a) none = (λ h. cc, λ h. cc)
option_ℕ_eq_iff (some a) (some b) = ground arith

-- A deadline order is accepted exactly if both refunds are in the future; if there is a Lightning
-- expiry, the source leg's deadline is later than the destination leg's by more than the margin, with
-- the Lightning expiry as the deadline of the leg on Lightning; and the refund and expiry heights of
-- the quote are those of the context; for a source refund and a Lightning expiry in 64 bits.
pub validate_deadline_order_iff :
    (quote : Quote) (context : DeadlineContext) (now : ℕ)
    → context.source_refund_at < 2 ^ 64
    → FitsU64 context.lightning_expiry_at
    → (validate_deadline_order quote context now ≡ ok tt) ↔ (
        (now < context.source_refund_at)
        × (now < context.destination_refund_at)
        × LeavesMargin quote context context.lightning_expiry_at
        × (quote.source_refund_height ≡ context.source_refund_height)
        × (quote.destination_refund_height ≡ context.destination_refund_height)
        × (quote.lightning_expiry_height ≡ context.lightning_expiry_height))
unfolding validate_deadline_order lacks_margin
validate_deadline_order_iff quote context now h h' =
    let heights = option_ℕ_eq_iff quote.lightning_expiry_height context.lightning_expiry_height in
    elim (Option-cases context.lightning_expiry_at) [
      | inl no_expiry ↦ ground (arith, no_expiry, heights)
      | inr (expiry, lightning) ↦ ground (arith, lightning, heights)
    ]
