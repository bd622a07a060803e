-- ===== src/Exit/Error.antt =====
-- src/exit/error.rs. A message built by `format!` is kept as its template.
use cross_network_market_mak.Prelude.{String, Result}

pub data ExitError : Type 0 where
  invalid_data wrong_network proof request transaction : String → ExitError

abbrev pub ExitResult {ℓ} : Type ℓ → Type ℓ
ExitResult A = Result ExitError A
