-- ===== src/Swaps/Timing.antt =====
-- src/swaps/timing.rs: the headroom between the two legs, in seconds.
pub mod Laws
use cross_network_market_mak.Prelude.{
  ℕ, ◌+◌, ◌-◌, ◌*◌, ◌/◌, ltb, leb, ◌==◌, ◌||◌, Option, none, some, ok, ok_or, reject_if,
  if◌then◌else◌,
}
use cross_network_market_mak.Prelude.Outcome.{◌>>=◌, ◌>>◌}
use cross_network_market_mak.Prelude.Decimal.{u64_limit}
use cross_network_market_mak.Core.Storage.Reservations.{checked_add}
use cross_network_market_mak.Swaps.Error.{SwapResult, timing}

abbrev pub bitcoin_block_seconds : ℕ
bitcoin_block_seconds = 600

abbrev pub liquid_block_seconds : ℕ
liquid_block_seconds = 60

abbrev pub default_claim_margin : ℕ
default_claim_margin = 7200

pub record TimingEvidence : Type 0 where
  pub required_liquid_refund_delta : ℕ
  pub available_seconds : ℕ
  pub required_seconds : ℕ

-- `checked_mul` by a constant.
abbrev pub checked_mul : ℕ → ℕ → Option ℕ
checked_mul a b = if ltb (a * b) u64_limit then some (a * b) else none

-- `checked_mul` and then `checked_add`.
abbrev and_then_add : Option ℕ → ℕ → Option ℕ
and_then_add none margin = none
and_then_add (some seconds) margin = checked_add seconds margin

abbrev pub margin_or_default : Option ℕ → ℕ
margin_or_default none = default_claim_margin
margin_or_default (some margin) = margin

unfoldable pub validate_forward_timing : ℕ → ℕ → Option ℕ → SwapResult TimingEvidence
validate_forward_timing lightning_cltv_limit liquid_refund_delta claim_margin_seconds = do
  reject_if (lightning_cltv_limit == 0 || liquid_refund_delta == 0)
      (timing "forward timeout values must be positive")
  required_seconds ←
      ok_or
        (and_then_add (checked_mul lightning_cltv_limit bitcoin_block_seconds)
          (margin_or_default claim_margin_seconds))
        (timing "forward timeout overflows")
  available_seconds ←
      ok_or (checked_mul liquid_refund_delta liquid_block_seconds)
        (timing "forward refund height overflows")
  reject_if (leb available_seconds required_seconds)
      (timing "forward refund requires at least {required_liquid_refund_delta} Liquid blocks")
  ok (record {
    required_liquid_refund_delta = required_seconds / liquid_block_seconds + 1;
    available_seconds = available_seconds;
    required_seconds = required_seconds;
  })

unfoldable pub validate_reverse_timing : ℕ → ℕ → ℕ → Option ℕ → SwapResult TimingEvidence
validate_reverse_timing current_height expiry_height liquid_refund_delta claim_margin_seconds = do
  reject_if (leb expiry_height current_height || liquid_refund_delta == 0)
      (timing "reverse timeout values are invalid")
  available_seconds ←
      ok_or (checked_mul (expiry_height - current_height) bitcoin_block_seconds)
        (timing "Lightning expiry overflows")
  required_seconds ←
      ok_or
        (and_then_add (checked_mul liquid_refund_delta liquid_block_seconds)
          (margin_or_default claim_margin_seconds))
        (timing "reverse refund height overflows")
  reject_if (leb available_seconds required_seconds)
      (timing "reverse refund leaves only {available_bitcoin_blocks} Bitcoin blocks")
  ok (record {
    required_liquid_refund_delta = liquid_refund_delta;
    available_seconds = available_seconds;
    required_seconds = required_seconds;
  })
