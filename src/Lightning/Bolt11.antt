-- ===== src/Lightning/Bolt11.antt =====
-- src/lightning/bolt11.rs. Reading a BOLT 11 text is left to `lightning_invoice`; the clock is an
-- argument.
pub mod Laws
use cross_network_market_mak.Prelude.{
  ℕ, ◌*◌, ◌^◌, ltb, leb, ◌==◌, Bool, true, false, not, Option, none, some, Result, ok, err, ok_or,
  reject_if, if◌then◌else◌,
}
use cross_network_market_mak.Prelude.Outcome.{◌>>=◌, ◌>>◌}
use cross_network_market_mak.Prelude.Text.{Text, text_eq}
use cross_network_market_mak.Core.Primitives.{Bytes}
use cross_network_market_mak.Lightning.Error.{
  LightningResult, invalid_invoice, invoice_wrong_network, invoice_expired, invoice_hash_mismatch,
  invoice_amount_mismatch, parameter_out_of_range,
}

-- What is read of an invoice: times in nanoseconds, an expiry that overflows is none.
pub record Bolt11Invoice : Type 0 where
  pub expires_at : Option ℕ
  pub is_regtest : Bool
  pub payment_hash : Bytes
  pub amount_milli_satoshis : Option ℕ

pub record InvoiceBinding : Type 0 where
  pub payment_hash : Bytes
  pub amount_sats : ℕ

abbrev pub has_expired : ℕ → Option ℕ → Bool
has_expired now none = false
has_expired now (some expiry) = leb expiry now

-- `u64::checked_mul`.
abbrev pub checked_mul : ℕ → ℕ → Option ℕ
checked_mul a b = if ltb (a * b) (2 ^ 64) then some (a * b) else none

unfoldable pub validate_payment_request :
    (Text → Option Bolt11Invoice) → ℕ → Text → Bytes → ℕ → LightningResult InvoiceBinding
validate_payment_request parse now payment_request expected_hash expected_amount_sats = do
  invoice ← ok_or (parse payment_request) (invalid_invoice "{error}")
  reject_if (has_expired now invoice.expires_at) invoice_expired
  reject_if (not invoice.is_regtest) invoice_wrong_network
  reject_if (not (text_eq invoice.payment_hash expected_hash)) invoice_hash_mismatch
  expected_msat ← ok_or (checked_mul expected_amount_sats 1000) parameter_out_of_range
  amount_msat ← ok_or invoice.amount_milli_satoshis invoice_amount_mismatch
  reject_if (not (amount_msat == expected_msat)) invoice_amount_mismatch
  ok (record { payment_hash = invoice.payment_hash; amount_sats = expected_amount_sats })
