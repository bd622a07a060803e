-- ===== src/Core/Error.antt =====
-- src/core/error.rs. A message built by `format!` is kept as its template; a variant that carries
-- a value keeps the value.
use cross_network_market_mak.Prelude.{String, Result}
use cross_network_market_mak.Prelude.Text.{Text}

pub data CoreError : Type 0 where
  invalid_amount invalid_endpoint invalid_hash invalid_network unsupported_network :
      Text → CoreError
  unsupported_route : Text → Text → CoreError
  signature quote_rejected deadline_rejected invalid_state : String → CoreError
  storage serialization transport adapter : String → CoreError

abbrev pub CoreResult {ℓ} : Type ℓ → Type ℓ
CoreResult A = Result CoreError A
