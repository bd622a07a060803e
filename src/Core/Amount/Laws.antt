-- ===== src/Core/Amount/Laws.antt =====
-- Canonical amounts are exactly the printed `u64` values.
use cross_network_market_mak.Prelude.{ℕ, ◌<◌, ◌≡◌, sym, ok, arith, inl, inr, Option-cases}
use cross_network_market_mak.Prelude.Text.{Text, text_eq_iff, text_eq_refl}
use cross_network_market_mak.Prelude.Decimal.{
  to_string, parse_u64, parse_u64-lt, parse_u64-to_string, to_string_head, u64_limit,
}
use cross_network_market_mak.Core.Amount.{CanonicalAmount, parse, value}

-- An accepted text is the decimal print of a number in range, which is its value.
pub parse-canonical :
    (t : Text) {a : CanonicalAmount}
    → parse t ≡ ok a
    → (n : ℕ) × (n < u64_limit) × (t ≡ to_string n) × (a.text ≡ t) × (value a ≡ ok n)
unfolding parse value
parse-canonical t {a} h = elim (Option-cases (parse_u64 t)) [
  | inl e ↦ ground arith
  | inr (n, e) ↦
      let same : to_string n ≡ t = ground (arith, text_eq_iff (to_string n) t) in
      (n, parse_u64-lt t n e, sym same, ground arith, ground arith)
]

-- Every `u64` is accepted in the form that it is printed in, and read back.
pub parse-to_string :
    (n : ℕ)
    → n < u64_limit
    → (parse (to_string n) ≡ ok (record { text = to_string n }))
      × (value (record { text = to_string n }) ≡ ok n)
unfolding parse value
parse-to_string n h = elim (to_string_head n h) [
  | inl e ↦ ground (arith, parse_u64-to_string n h, text_eq_refl (to_string n))
  | inr (c, t, e, ne) ↦ ground (arith, parse_u64-to_string n h, text_eq_refl (to_string n))
]
