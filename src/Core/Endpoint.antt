-- ===== src/Core/Endpoint.antt =====
-- src/core/endpoint.rs: an asset on a network.
use cross_network_market_mak.Prelude.{
  ℕ, ◌==◌, leb, length, any, Bool, true, false, not, ◌&&◌, ◌||◌, ◌++◌, ◌∷◌, Option, none, some, ok,
  err, if◌then◌else◌, reject_if,
}
use cross_network_market_mak.Prelude.Outcome.{◌>>◌}
use cross_network_market_mak.Prelude.Text.{Text, text_eq, option_eq, codes}
use cross_network_market_mak.Core.Error.{CoreResult, invalid_endpoint, unsupported_network}
use cross_network_market_mak.Core.Primitives.{Primitives}
use cross_network_market_mak.Core.Network.{
  Network, liquid_regtest, ark_regtest, bitcoin_regtest, lightning_regtest, is_regtest, to_text,
  network_eq,
}
use cross_network_market_mak.Core.Hash.{to_lowercase}
use cross_network_market_mak.Core.Amount.{is_empty}

pub record EndpointId : Type 0 where
  pub asset_id : Text
  pub network : Network
  pub asset_hash : Option Text

-- The derived `==`.
unfoldable pub endpoint_eq : EndpointId → EndpointId → Bool
endpoint_eq a b =
    text_eq a.asset_id b.asset_id
    && network_eq a.network b.network
    && option_eq a.asset_hash b.asset_hash

unfoldable pub canonical_id : EndpointId → Text
canonical_id e = e.asset_id ++ b'@' ∷ to_text e.network

-- An upper-case letter, a digit or a dash.
abbrev pub is_asset_byte : ℕ → Bool
is_asset_byte c = leb b'A' c && leb c b'Z' || leb b'0' c && leb c b'9' || c == b'-'

abbrev pub is_bitcoin_network : Network → Bool
is_bitcoin_network bitcoin_regtest = true
is_bitcoin_network lightning_regtest = true
is_bitcoin_network ark_regtest = true
is_bitcoin_network liquid_regtest = false

abbrev pub is_none {ℓ} : {A : Type ℓ} → Option A → Bool
is_none none = true
is_none (some _) = false

module _ (p : Primitives) where
  unfoldable pub validate_asset_hash : Text → CoreResult (Unit {0})
  validate_asset_hash value =
      if not (length value == 64)
        || not (text_eq (to_lowercase value) value)
        || is_none (p.hex_decode value)
      then err (invalid_endpoint (codes "asset hash " ++ value))
      else ok tt

  validate_hash_if_any : Option Text → CoreResult (Unit {0})
  validate_hash_if_any none = ok tt
  validate_hash_if_any (some h) = validate_asset_hash h

  unfoldable pub validate : EndpointId → CoreResult (Unit {0})
  unfolding validate_hash_if_any
  validate e = do
    reject_if (is_empty e.asset_id || any (λ c. not (is_asset_byte c)) e.asset_id)
        (invalid_endpoint (canonical_id e))
    reject_if (not (is_regtest e.network)) (unsupported_network (to_text e.network))
    reject_if (text_eq e.asset_id (codes "TEST-DEPIX") && not (network_eq e.network liquid_regtest))
        (invalid_endpoint (canonical_id e))
    reject_if (text_eq e.asset_id (codes "LBTC") && not (network_eq e.network liquid_regtest))
        (invalid_endpoint (canonical_id e))
    reject_if (text_eq e.asset_id (codes "BTC") && not (is_bitcoin_network e.network))
        (invalid_endpoint (canonical_id e))
    validate_hash_if_any e.asset_hash

  unfoldable pub new : Text → Network → Option Text → CoreResult EndpointId
  new asset_id network asset_hash = do
    let endpoint : EndpointId = record {
      asset_id = asset_id;
      network = network;
      asset_hash = asset_hash;
    }
    validate endpoint
    ok endpoint
