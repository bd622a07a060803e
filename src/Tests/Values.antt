-- ===== src/Tests/Values.antt =====
-- Amounts, networks, states, timings and evidence.
use cross_network_market_mak.Prelude.{
  ℕ, ◌+◌, ◌*◌, ◌-◌, ◌<◌, ◌≤◌, ◌≡◌, ◌↔◌, ◌^◌, refl, true, some, none, ok, length,
}
use cross_network_market_mak.Prelude.Text.{text_eq, codes}
use cross_network_market_mak.Prelude.Decimal.{u64_limit, to_string, parse_u64}
use cross_network_market_mak.Core.Amount.{parse, value}
use cross_network_market_mak.Core.Amount.Laws.{parse-canonical}
use cross_network_market_mak.Core.Hash.{hash_preimage, as_hex, from_preimage}
use cross_network_market_mak.Core.Settlement.{
  created, input_funding, input_locked, validate_transition, can_transition_to, PaymentEvidence,
  LightningEvidence, ChainEvidence,
}
use cross_network_market_mak.Core.Settlement.Paths.{◌⟶*◌, here, then, steps, rank, steps_bounded}
use cross_network_market_mak.Core.Settlement.Evidence.{validate_against}
use cross_network_market_mak.Core.Settlement.Evidence.Laws.{validate_against-lightning}
use cross_network_market_mak.Core.Primitives.{Bytes}
use cross_network_market_mak.Swaps.Timing.{
  TimingEvidence, validate_forward_timing, validate_reverse_timing,
}
use cross_network_market_mak.Swaps.Timing.Laws.{
  validate_forward_timing_iff, validate_reverse_timing_iff,
}
use cross_network_market_mak.Tests.{plain}

parse_100 : parse (codes "100") ≡ ok (record { text = codes "100" })
unfolding parse parse_u64 to_string text_eq
parse_100 = refl

parse-canonical_example :
    (n : ℕ) × (n < u64_limit)
    × (codes "100" ≡ to_string n)
    × (codes "100" ≡ codes "100")
    × (value (record { text = codes "100" }) ≡ ok n)
parse-canonical_example = parse-canonical (codes "100") parse_100

accepted :
    (validate_transition created input_funding ≡ ok tt)
    × (validate_transition input_funding input_locked ≡ ok tt)
unfolding validate_transition can_transition_to
accepted = (refl, refl)

abbrev locked_path : created ⟶* input_locked
locked_path = then (then here (accepted.0)) (accepted.1)

steps_bounded_example : steps locked_path + rank input_locked ≤ rank created
steps_bounded_example = steps_bounded locked_path

abbrev paid : LightningEvidence
paid = record {
  payment_hash = codes "0123456789abcdef0123456789abcdef";
  amount_msat = codes "100";
  preimage_hex = codes "0123456789abcdef0123456789abcdef";
  observed_state = codes "SUCCEEDED";
}

paid_validates :
    validate_against plain (PaymentEvidence.lightning paid) paid.payment_hash (codes "100") ≡ ok tt
unfolding validate_against hash_preimage as_hex from_preimage text_eq
paid_validates = refl

validate_against-lightning_example :
    (codes "100" ≡ codes "100")
    × (paid.payment_hash ≡ paid.payment_hash)
    × (codes "SUCCEEDED" ≡ codes "SUCCEEDED")
    × (preimage : Bytes) × (plain.hex_decode paid.preimage_hex ≡ some preimage)
    × (length preimage ≡ 32)
    × (plain.hex_encode (plain.sha256 preimage) ≡ paid.payment_hash)
validate_against-lightning_example =
    validate_against-lightning plain paid paid.payment_hash (codes "100") paid_validates

abbrev locked_output : ChainEvidence
locked_output = record {
  txid = codes "t";
  outpoint = codes "t:0";
  amount = codes "100";
  asset_hash = none;
  hash_commitment = codes "h";
  confirmations = 1;
  script_verified = true;
}

abbrev forward : TimingEvidence
forward = record {
  required_liquid_refund_delta = 921;
  available_seconds = 60000;
  required_seconds = 55200;
}

forward_accepts : validate_forward_timing 80 1000 none ≡ ok forward
unfolding validate_forward_timing
forward_accepts = refl

validate_forward_timing_iff_example :
    ((e : TimingEvidence) × (validate_forward_timing 80 120 none ≡ ok e))
    ↔ ((0 < 80) × (120 * 60 < 2 ^ 64) × (80 * 600 + 7200 < 120 * 60))
validate_forward_timing_iff_example = validate_forward_timing_iff 80 120 none

validate_reverse_timing_iff_example :
    ((e : TimingEvidence) × (validate_reverse_timing 200 216 30 none ≡ ok e))
    ↔ ((0 < 30) × (200 < 216) × ((216 - 200) * 600 < 2 ^ 64) × (30 * 60 + 7200 < (216 - 200) * 600))
validate_reverse_timing_iff_example = validate_reverse_timing_iff 200 216 30 none
