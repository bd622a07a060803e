-- ===== src/Tests/Quotes.antt =====
-- Quotes, routes and signatures.
use cross_network_market_mak.Prelude.{
  ◌≡◌, ◌↔◌, ◌<◌, refl, some, none, ok, [], ◌∷◌, ◌++◌, arith, All, List,
}
use cross_network_market_mak.Prelude.Text.{Text, text_eq, text_eq_refl, option_eq, codes}
use cross_network_market_mak.Prelude.Decimal.{to_string, parse_u64}
use cross_network_market_mak.Core.Primitives.{PrimitiveLaws}
use cross_network_market_mak.Core.Amount.{value}
use cross_network_market_mak.Core.Hash.{as_hex, to_lowercase}
use cross_network_market_mak.Core.Network.{
  Network, network_eq, liquid_regtest, bitcoin_regtest, ark_regtest, is_regtest, to_text,
}
use cross_network_market_mak.Core.Endpoint.{
  EndpointId, endpoint_eq, validate, validate_asset_hash, canonical_id, new,
}
use cross_network_market_mak.Core.Routes.{
  DirectedRoute, RouteRegistry, directed, is_enabled, is_initial_route, route, find_route,
  routes_from, routes_between, build, adapter_id,
}
use cross_network_market_mak.Core.Rfq.{Quote, SignedQuote, PinnedSolverKeys, get}
use cross_network_market_mak.Core.Rfq.Terms.{
  validate_quote_terms, validate_deadline_order, lacks_margin, binds_intent, context_eq,
  option_ℕ_eq,
}
use cross_network_market_mak.Core.Rfq.Laws.{LeavesMargin, validate_deadline_order_iff}
use cross_network_market_mak.Core.Rfq.Digest.{
  Curve, CurveLaws, quote_fields, quote_digest, sign_quote, verify_quote,
}
use cross_network_market_mak.Core.Rfq.Digest.Framing.{Fits}
use cross_network_market_mak.Core.Rfq.Digest.Signing.{
  IsU64, signed_numbers, signed_bytes_bind, verify_quote-sign_quote,
}
use cross_network_market_mak.Tests.{plain, depix, lightning, deadlines, intent, quote}

order_holds : validate_deadline_order quote deadlines 100 ≡ ok tt
unfolding validate_deadline_order lacks_margin network_eq option_ℕ_eq
order_holds = refl

validate_deadline_order_iff_example : (validate_deadline_order quote deadlines 100 ≡ ok tt) ↔ (
    (100 < 70000)
    × (100 < 50000)
    × LeavesMargin quote deadlines (some 50000)
    × (quote.source_refund_height ≡ deadlines.source_refund_height)
    × (quote.destination_refund_height ≡ deadlines.destination_refund_height)
    × (quote.lightning_expiry_height ≡ deadlines.lightning_expiry_height))
validate_deadline_order_iff_example =
    validate_deadline_order_iff quote deadlines 100 (omega arith) (omega arith)

order-LeavesMargin : LeavesMargin quote deadlines (some 50000)
order-LeavesMargin =
    let (_, _, margin, _, _, _) =
      (validate_deadline_order_iff quote deadlines 100 (omega arith) (omega arith)).0 order_holds in
    margin

fields_fit : All Fits (quote_fields plain quote)
unfolding quote_fields to_string canonical_id to_text as_hex
fields_fit = ground arith

-- A curve on which a key signs a message by standing before it.
abbrev toy : Curve
toy = record {
  SecretKey = Text;
  PublicKey = Text;
  Signature = Text;
  secret_key_from_slice = λ b. some b;
  public_key_from_slice = λ b. some b;
  signature_from_compact = λ b. some b;
  serialize_compact = λ s. s;
  sign_ecdsa = λ m k. k ++ m;
  verify_ecdsa = λ m s k. text_eq s (k ++ m);
}

toy_laws : CurveLaws toy
toy_laws = record {
  public_key = λ k. k;
  sign_verifies = λ m k. text_eq_refl (k ++ m);
  compact_round_trip = λ s. refl;
}

plain_laws : PrimitiveLaws plain
plain_laws = record { decode_encode = λ b. refl }

abbrev pinned : PinnedSolverKeys
pinned = record { keys = (codes "k1", codes "key") ∷ [] }

abbrev endpoint : Text → Network → EndpointId
endpoint asset_id network = record { asset_id = asset_id; network = network; asset_hash = none }

abbrev endpoints : List EndpointId
endpoints =
    depix
    ∷ lightning
    ∷ endpoint (codes "BTC") ark_regtest
    ∷ endpoint (codes "BTC") bitcoin_regtest
    ∷ endpoint (codes "LBTC") liquid_regtest
    ∷ []

abbrev registry : RouteRegistry
registry = record { routes = routes_between endpoints endpoints }

builds : build plain depix.asset_hash ≡ ok registry
unfolding build new validate validate_asset_hash to_lowercase is_regtest network_eq text_eq
builds = refl

abbrev depix_route : DirectedRoute
depix_route = directed depix lightning

known : route registry depix lightning ≡ some depix_route
unfolding route find_route routes_between routes_from endpoint_eq network_eq option_eq text_eq
known = refl

terms_hold : validate_quote_terms plain intent quote registry deadlines 100 ≡ ok tt
unfolding validate_quote_terms validate validate_asset_hash to_lowercase is_regtest network_eq
    text_eq option_eq binds_intent endpoint_eq context_eq option_ℕ_eq is_enabled route find_route
    routes_between routes_from is_initial_route adapter_id value parse_u64 validate_deadline_order
    lacks_margin
terms_hold = refl

abbrev signed_quote : SignedQuote
signed_quote = record { quote = quote; signature_hex = codes "key" ++ quote_digest plain quote }

signs : sign_quote plain toy quote (codes "key") ≡ ok signed_quote
unfolding sign_quote
signs = refl

pinned_key : get pinned (codes "k1") ≡ some (codes "key")
unfolding get text_eq
pinned_key = refl

verify_quote-sign_quote_example :
    verify_quote plain toy intent signed_quote pinned registry deadlines 100 ≡ ok tt
unfolding toy_laws
verify_quote-sign_quote_example =
    verify_quote-sign_quote plain toy plain_laws toy_laws intent quote signed_quote (codes "key")
      (codes "key") (codes "key") (codes "key") (codes "key") pinned registry deadlines 100 refl
      refl pinned_key refl refl terms_hold signs

-- The heights of the deadline context are not signed a second time.
abbrev same_bytes : Quote
same_bytes = record quote { deadline_context = record deadlines { source_refund_height = 5 } }

numbers_fit : All IsU64 (signed_numbers quote)
numbers_fit = ground arith

signed_bytes_bind_example :
    (codes "q1" ≡ codes "q1")
    × (codes "i1" ≡ codes "i1")
    × (codes "100" ≡ codes "100")
    × (codes "90" ≡ codes "90")
    × (codes "95" ≡ codes "95")
    × (codes "5" ≡ codes "5")
    × (codes "5" ≡ codes "5")
    × (quote.hash_commitment.bytes ≡ quote.hash_commitment.bytes)
    × (codes "ck" ≡ codes "ck")
    × (codes "rk" ≡ codes "rk")
    × (codes "s" ≡ codes "s")
    × (codes "d" ≡ codes "d")
    × (codes "r" ≡ codes "r")
    × (codes "n" ≡ codes "n")
    × (codes "k1" ≡ codes "k1")
    × (codes "lightning-hold" ≡ codes "lightning-hold")
    × (signed_numbers quote ≡ signed_numbers quote)
unfolding quote_fields
signed_bytes_bind_example =
    signed_bytes_bind plain plain_laws quote same_bytes numbers_fit numbers_fit fields_fit
      fields_fit refl
