-- ===== src/Core/Amount.antt =====
-- src/core/amount.rs: amounts as canonical decimal text.
pub mod Laws
use cross_network_market_mak.Prelude.{
  ℕ, ◌<◌, length, ltb, ◌==◌, Bool, true, false, not, ◌&&◌, ◌||◌, [], ◌∷◌, ok, ok_or, reject_if,
}
use cross_network_market_mak.Prelude.Outcome.{◌>>=◌, ◌>>◌}
use cross_network_market_mak.Prelude.Text.{Text, text_eq}
use cross_network_market_mak.Prelude.Decimal.{to_string, parse_u64}
use cross_network_market_mak.Core.Error.{CoreResult, invalid_amount}

pub record CanonicalAmount : Type 0 where
  pub text : Text

abbrev pub starts_with_zero : Text → Bool
starts_with_zero [] = false
starts_with_zero (c ∷ s) = c == b'0'

abbrev pub is_empty : Text → Bool
is_empty [] = true
is_empty (c ∷ s) = false

unfoldable pub parse : Text → CoreResult CanonicalAmount
parse value = do
  reject_if (is_empty value || (ltb 1 (length value) && starts_with_zero value))
      (invalid_amount value)
  parsed ← ok_or (parse_u64 value) (invalid_amount value)
  reject_if (not (text_eq (to_string parsed) value)) (invalid_amount value)
  ok (record { text = value })

unfoldable pub value : CanonicalAmount → CoreResult ℕ
value a = ok_or (parse_u64 a.text) (invalid_amount a.text)

abbrev pub as_str : CanonicalAmount → Text
as_str a = a.text
