-- ===== src/Swaps/Timing/Laws.antt =====
-- When a timing is accepted.
use cross_network_market_mak.Prelude.{
  ℕ, ◌+◌, ◌-◌, ◌*◌, ◌/◌, ◌≤◌, ◌<◌, ◌≡◌, ◌↔◌, Option, ok, arith, ◌^◌,
}
use cross_network_market_mak.Swaps.Timing.{
  TimingEvidence, margin_or_default, validate_forward_timing, validate_reverse_timing,
}

-- The Liquid refund comes later than the whole Lightning timeout and the margin, and no smaller
-- number of Liquid blocks than the one in the evidence would do.
pub validate_forward_timing-ok :
    (limit delta d : ℕ) (margin : Option ℕ) (e : TimingEvidence)
    → validate_forward_timing limit delta margin ≡ ok e
    → (limit * 600 + margin_or_default margin < delta * 60)
      × (e.required_liquid_refund_delta ≤ delta)
      × ((e.required_liquid_refund_delta ≤ d) ↔ (limit * 600 + margin_or_default margin < d * 60))
unfolding validate_forward_timing
validate_forward_timing-ok limit delta d margin e h =
    (ground arith, ground arith, (λ g. ground arith, λ g. ground arith))

-- A forward timing is accepted if both values are positive, the seconds of both fit in 64 bits, and
-- the Liquid refund comes later than the Lightning timeout and the margin; and only then.
pub validate_forward_timing_iff :
    (limit delta : ℕ) (margin : Option ℕ)
    → ((e : TimingEvidence) × (validate_forward_timing limit delta margin ≡ ok e)) ↔ (
        (0 < limit) × (delta * 60 < 2 ^ 64) × (limit * 600 + margin_or_default margin < delta * 60))
unfolding validate_forward_timing
validate_forward_timing_iff limit delta margin = (
  λ (e, h). ground arith,
  λ (a, b, c). (
    record {
      required_liquid_refund_delta = (limit * 600 + margin_or_default margin) / 60 + 1;
      available_seconds = delta * 60;
      required_seconds = limit * 600 + margin_or_default margin;
    },
    ground arith,
  ),
)

-- A reverse timing is accepted if the Lightning expiry is ahead, the refund delta is positive, the
-- seconds of both fit in 64 bits, and the expiry leaves more time than the Liquid refund and the
-- margin; and only then.
pub validate_reverse_timing_iff :
    (height expiry delta : ℕ) (margin : Option ℕ)
    → ((e : TimingEvidence) × (validate_reverse_timing height expiry delta margin ≡ ok e)) ↔ (
        (0 < delta)
        × (height < expiry)
        × ((expiry - height) * 600 < 2 ^ 64)
        × (delta * 60 + margin_or_default margin < (expiry - height) * 600))
unfolding validate_reverse_timing
validate_reverse_timing_iff height expiry delta margin = (
  λ (e, h). ground arith,
  λ (a, b, c, d). (
    record {
      required_liquid_refund_delta = delta;
      available_seconds = (expiry - height) * 600;
      required_seconds = delta * 60 + margin_or_default margin;
    },
    ground arith,
  ),
)
