-- ===== src/Swaps/Error.antt =====
-- src/swaps/error.rs. A message built by `format!` is kept as its template.
use cross_network_market_mak.Prelude.{String, Result}

pub data SwapError : Type 0 where
  invalid_input durability recovery_mismatch timing lightning chain unknown : String → SwapError

abbrev pub SwapResult {ℓ} : Type ℓ → Type ℓ
SwapResult A = Result SwapError A
