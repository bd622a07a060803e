-- ===== src/Core/Routes/Laws.antt =====
-- What a registry enables.
use cross_network_market_mak.Prelude.{
  ◌≡◌, inl, inr, refl, true, ◌&&◌, List, [], ◌∷◌, ◌++◌, Option, none, some, ok, arith, Bool-cases,
  All, subst, Result-cases, ap, ◌∙◌,
}
use cross_network_market_mak.Prelude.Text.{Text, text_eq_iff, option_eq_iff, codes}
use cross_network_market_mak.Core.Primitives.{Primitives}
use cross_network_market_mak.Core.Network.{
  liquid_regtest, ark_regtest, bitcoin_regtest, lightning_regtest, network_eq-true,
}
use cross_network_market_mak.Core.Endpoint.{EndpointId, endpoint_eq, new}
use cross_network_market_mak.Core.Routes.{
  DirectedRoute, RouteRegistry, is_initial_route, directed, routes_from, routes_between, find_route,
  route, is_enabled, build, adapter_id,
}

pub endpoint_eq-true : (a b : EndpointId) → endpoint_eq a b ≡ true → a ≡ b
unfolding endpoint_eq
endpoint_eq-true a b h = ground (
  arith,
  text_eq_iff a.asset_id b.asset_id,
  network_eq-true a.network b.network,
  option_eq_iff a.asset_hash b.asset_hash,
)

-- A route of the catalogue.
abbrev pub IsDirected : DirectedRoute → Type 0
IsDirected r = r ≡ directed r.source r.destination

All-append :
    (xs ys : List DirectedRoute) → All IsDirected xs → All IsDirected ys → All IsDirected (xs ++ ys)
All-append [] ys h k = k
All-append (x ∷ xs) ys (p, h) k = (p, All-append xs ys h k)

routes_from-IsDirected : (s : EndpointId) (ds : List EndpointId) → All IsDirected (routes_from s ds)
unfolding routes_from
routes_from-IsDirected s [] = tt
routes_from-IsDirected s (d ∷ ds) = elim (Bool-cases (endpoint_eq s d)) [
  | inl same ↦ rw same (routes_from-IsDirected s ds)
  | inr other ↦ rw other (refl, routes_from-IsDirected s ds)
]

routes_between-IsDirected : (ss ds : List EndpointId) → All IsDirected (routes_between ss ds)
unfolding routes_between
routes_between-IsDirected [] ds = tt
routes_between-IsDirected (s ∷ ss) ds =
    All-append (routes_from s ds) (routes_between ss ds) (routes_from-IsDirected s ds)
      (routes_between-IsDirected ss ds)

find_route-All :
    (s d : EndpointId) (rs : List DirectedRoute) (r : DirectedRoute)
    → All IsDirected rs
    → find_route s d rs ≡ some r
    → IsDirected r × (r.source ≡ s) × (r.destination ≡ d)
unfolding find_route
find_route-All s d [] r h e = absurd (ground arith)
find_route-All s d (x ∷ rs) r (px, h) e =
    elim (Bool-cases (endpoint_eq x.source s && endpoint_eq x.destination d)) [
      | inl joins ↦
          let same : x ≡ r = ground (arith, joins) in
          (
            subst IsDirected same px,
            subst (λ y. y.source ≡ s) same (ground (arith, endpoint_eq-true x.source s)),
            subst (λ y. y.destination ≡ d) same (ground (arith, endpoint_eq-true x.destination d)),
          )
      | inr other ↦ find_route-All s d rs r h (ground (arith, other))
    ]

module _ (p : Primitives) where
  build-routes :
      (hash : Option Text) (registry : RouteRegistry)
      → build p hash ≡ ok registry
      → (es : List EndpointId) × (registry.routes ≡ routes_between es es)
  unfolding build
  build-routes hash registry h =
      elim (Result-cases (new p (codes "TEST-DEPIX") liquid_regtest hash)) [
        | inr (x, failed) ↦ absurd (ground (arith, failed))
        | inl (a, ha) ↦ elim (Result-cases (new p (codes "BTC") lightning_regtest none)) [
          | inr (x, failed) ↦ absurd (ground (arith, ha, failed))
          | inl (b, hb) ↦ elim (Result-cases (new p (codes "BTC") ark_regtest none)) [
            | inr (x, failed) ↦ absurd (ground (arith, ha, hb, failed))
            | inl (c, hc) ↦ elim (Result-cases (new p (codes "BTC") bitcoin_regtest none)) [
              | inr (x, failed) ↦ absurd (ground (arith, ha, hb, hc, failed))
              | inl (d, hd) ↦ elim (Result-cases (new p (codes "LBTC") liquid_regtest none)) [
                | inr (x, failed) ↦ absurd (ground (arith, ha, hb, hc, hd, failed))
                | inl (e, he) ↦ (a ∷ b ∷ c ∷ d ∷ e ∷ [], ground (arith, ha, hb, hc, hd, he))
              ]
            ]
          ]
        ]
      ]

  -- A route that a built registry knows is enabled if its pair is an initial one and only then, and
  -- names the adapter of its pair.
  pub route-build :
      (hash : Option Text) (registry : RouteRegistry) (s d : EndpointId) (r : DirectedRoute)
      → build p hash ≡ ok registry
      → route registry s d ≡ some r
      → (is_enabled registry s d ≡ is_initial_route s d) × (r.adapter_id ≡ adapter_id s d)
  unfolding build route is_enabled
  route-build hash registry s d r built known =
      let (es, routes) = build-routes hash registry built in
      let (made, source, destination) =
        find_route-All s d registry.routes r (rw routes (routes_between-IsDirected es es)) known in
      (
        rw known (ap (λ x. x.enabled) made ∙ rw (source, destination) refl),
        ap (λ x. x.adapter_id) made ∙ rw (source, destination) refl,
      )
