-- ===== src/Core/Routes.antt =====
-- src/core/routes.rs: the catalogue of directed routes.
pub mod Laws
use cross_network_market_mak.Prelude.{
  ◌≡◌, Bool, true, false, not, ◌&&◌, ◌||◌, ◌++◌, List, [], ◌∷◌, map, Option, none, some, ok, err,
  if◌then◌else◌, reject_if, String,
}
use cross_network_market_mak.Prelude.Outcome.{◌>>=◌, ◌>>◌}
use cross_network_market_mak.Prelude.Text.{Text, text_eq, codes}
use cross_network_market_mak.Core.Error.{CoreResult, invalid_endpoint}
use cross_network_market_mak.Core.Primitives.{Primitives}
use cross_network_market_mak.Core.Amount.{is_empty}
use cross_network_market_mak.Core.Network.{
  Network, liquid_regtest, ark_regtest, bitcoin_regtest, lightning_regtest, network_eq,
}
use cross_network_market_mak.Core.Endpoint.{EndpointId, endpoint_eq, is_none, new}

pub record DirectedRoute : Type 0 where
  pub source : EndpointId
  pub destination : EndpointId
  pub enabled : Bool
  pub adapter_id : Text

pub record RouteRegistry : Type 0 where
  pub routes : List DirectedRoute

abbrev pub is_initial_pair : Network → Network → Bool
is_initial_pair liquid_regtest lightning_regtest = true
is_initial_pair lightning_regtest liquid_regtest = true
is_initial_pair _ _ = false

unfoldable pub is_initial_route : EndpointId → EndpointId → Bool
is_initial_route source destination =
    let endpoint_pair = is_initial_pair source.network destination.network in
    let asset_pair =
      text_eq source.asset_id (codes "TEST-DEPIX") && text_eq destination.asset_id (codes "BTC")
      || text_eq source.asset_id (codes "BTC")
        && text_eq destination.asset_id (codes "TEST-DEPIX") in
    endpoint_pair
    && asset_pair
    && (not (text_eq source.asset_id (codes "TEST-DEPIX")) || not (is_none source.asset_hash))
    && (not (text_eq destination.asset_id (codes "TEST-DEPIX"))
        || not (is_none destination.asset_hash))

unfoldable pub adapter_id : EndpointId → EndpointId → Text
adapter_id source destination =
    if network_eq source.network ark_regtest || network_eq destination.network ark_regtest
    then codes "unqualified-ark"
    else if network_eq source.network lightning_regtest
        || network_eq destination.network lightning_regtest
    then codes "lightning-hold"
    else codes "chain-htlc"

abbrev pub directed : EndpointId → EndpointId → DirectedRoute
directed source destination = record {
  source = source;
  destination = destination;
  enabled = is_initial_route source destination;
  adapter_id = adapter_id source destination;
}

-- The routes from one endpoint to every other one.
unfoldable pub routes_from : EndpointId → List EndpointId → List DirectedRoute
routes_from source [] = []
routes_from source (d ∷ ds) =
    if endpoint_eq source d
    then routes_from source ds
    else directed source d ∷ routes_from source ds

unfoldable pub routes_between : List EndpointId → List EndpointId → List DirectedRoute
routes_between [] destinations = []
routes_between (s ∷ ss) destinations = routes_from s destinations ++ routes_between ss destinations

-- The first route of the list that joins the two endpoints.
unfoldable pub find_route : EndpointId → EndpointId → List DirectedRoute → Option DirectedRoute
find_route source destination [] = none
find_route source destination (r ∷ rs) =
    if endpoint_eq r.source source && endpoint_eq r.destination destination
    then some r
    else find_route source destination rs

unfoldable pub route : RouteRegistry → EndpointId → EndpointId → Option DirectedRoute
unfolding find_route
route registry source destination = find_route source destination registry.routes

abbrev enabled_of : Option DirectedRoute → Bool
enabled_of none = false
enabled_of (some r) = r.enabled

unfoldable pub is_enabled : RouteRegistry → EndpointId → EndpointId → Bool
is_enabled registry source destination = enabled_of (route registry source destination)

module _ (p : Primitives) where
  unfoldable pub build : Option Text → CoreResult RouteRegistry
  build test_depix_asset_hash = do
    depix ← new p (codes "TEST-DEPIX") liquid_regtest test_depix_asset_hash
    lightning ← new p (codes "BTC") lightning_regtest none
    ark ← new p (codes "BTC") ark_regtest none
    bitcoin ← new p (codes "BTC") bitcoin_regtest none
    lbtc ← new p (codes "LBTC") liquid_regtest none
    let endpoints : List EndpointId = depix ∷ lightning ∷ ark ∷ bitcoin ∷ lbtc ∷ []
    ok (record { routes = routes_between endpoints endpoints })

  unfoldable pub regtest : CoreResult RouteRegistry
  regtest = build none

  unfoldable pub qualified : Text → CoreResult RouteRegistry
  qualified test_depix_asset_hash = do
    reject_if (is_empty test_depix_asset_hash)
        (invalid_endpoint (codes "TEST-DEPIX asset hash is required"))
    build (some test_depix_asset_hash)
