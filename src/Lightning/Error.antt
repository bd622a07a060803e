-- ===== src/Lightning/Error.antt =====
-- src/lightning/error.rs
use cross_network_market_mak.Prelude.{ℕ, String, Result}

pub data LightningError : Type 0 where
  invalid_configuration invalid_certificate transport : String → LightningError
  invalid_json invalid_response invalid_invoice : String → LightningError
  http : ℕ → String → LightningError
  endpoint_not_local_tls invalid_macaroon request_timeout wrong_chain wrong_network : LightningError
  not_synced invoice_wrong_network invoice_expired invoice_hash_mismatch : LightningError
  invoice_amount_mismatch payment_hash_invalid preimage_invalid preimage_mismatch : LightningError
  preimage_missing unsafe_cancel_state cancel_deadline_passed unsafe_settle_state : LightningError
  parameter_out_of_range : LightningError

abbrev pub LightningResult {ℓ} : Type ℓ → Type ℓ
LightningResult A = Result LightningError A
