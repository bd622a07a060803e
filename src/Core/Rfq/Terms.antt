-- ===== src/Core/Rfq/Terms.antt =====
-- `validate_quote_terms` and `validate_deadline_order`.
use cross_network_market_mak.Prelude.{
  ℕ, ◌+◌, ◌-◌, ◌^◌, ltb, leb, ◌==◌, Bool, true, false, not, ◌&&◌, ◌||◌, Option, none, some, ok,
  ok_or, reject_if, if◌then◌else◌,
}
use cross_network_market_mak.Prelude.Outcome.{◌>>=◌, ◌>>◌}
use cross_network_market_mak.Prelude.Text.{text_eq, codes}
use cross_network_market_mak.Prelude.Decimal.{u64_limit}
use cross_network_market_mak.Core.Error.{
  CoreResult, quote_rejected, deadline_rejected, unsupported_route,
}
use cross_network_market_mak.Core.Primitives.{Primitives}
use cross_network_market_mak.Core.Amount.{value}
use cross_network_market_mak.Core.Network.{lightning_regtest, network_eq}
use cross_network_market_mak.Core.Endpoint.{
  EndpointId, endpoint_eq, is_none, validate, canonical_id,
}
use cross_network_market_mak.Core.Routes.{RouteRegistry, route, is_enabled}
use cross_network_market_mak.Core.Rfq.{DeadlineContext, Intent, Quote}

-- `u64::saturating_add`.
abbrev pub saturating_add : ℕ → ℕ → ℕ
saturating_add a b = if ltb (a + b) u64_limit then a + b else 2 ^ 64 - 1

-- The derived `==` of `Option<u64>`.
unfoldable pub option_ℕ_eq : Option ℕ → Option ℕ → Bool
option_ℕ_eq none none = true
option_ℕ_eq none (some b) = false
option_ℕ_eq (some a) none = false
option_ℕ_eq (some a) (some b) = a == b

unfoldable pub context_eq : DeadlineContext → DeadlineContext → Bool
context_eq a b =
    a.source_height == b.source_height
    && a.destination_height == b.destination_height
    && a.source_refund_height == b.source_refund_height
    && a.destination_refund_height == b.destination_refund_height
    && option_ℕ_eq a.lightning_expiry_height b.lightning_expiry_height
    && a.source_refund_at == b.source_refund_at
    && a.destination_refund_at == b.destination_refund_at
    && option_ℕ_eq a.lightning_expiry_at b.lightning_expiry_at
    && a.margin_seconds == b.margin_seconds

-- The source leg must outlast the destination leg by the margin, when one of them is Lightning.
unfoldable pub lacks_margin : Quote → DeadlineContext → Option ℕ → Bool
lacks_margin quote context none = false
lacks_margin quote context (some lightning_expiry_at) =
    let source_is_lightning = network_eq quote.source.network lightning_regtest in
    let source_deadline =
      if source_is_lightning then lightning_expiry_at else context.source_refund_at in
    let destination_deadline =
      if source_is_lightning then context.destination_refund_at else lightning_expiry_at in
    leb source_deadline (saturating_add destination_deadline context.margin_seconds)

unfoldable pub validate_deadline_order : Quote → DeadlineContext → ℕ → CoreResult (Unit {0})
validate_deadline_order quote context now = do
  reject_if (leb context.source_refund_at now || leb context.destination_refund_at now)
      (deadline_rejected "refund deadline is already expired")
  reject_if (lacks_margin quote context context.lightning_expiry_at)
      (deadline_rejected "source refund/expiry is not later than destination by the safety margin")
  reject_if
      (not (quote.source_refund_height == context.source_refund_height)
        || not (quote.destination_refund_height == context.destination_refund_height)
        || not (option_ℕ_eq quote.lightning_expiry_height context.lightning_expiry_height))
      (deadline_rejected "quote deadline height does not match trusted context")
  ok tt

-- The fields that a quote copies from its intent.
unfoldable pub binds_intent : Quote → Intent → Bool
binds_intent quote intent =
    text_eq quote.intent_id intent.intent_id
    && endpoint_eq quote.source intent.source
    && endpoint_eq quote.destination intent.destination
    && text_eq quote.amount_in.text intent.amount_in.text
    && text_eq quote.min_amount_out.text intent.min_amount_out.text
    && text_eq quote.fee_limit_lbtc.text intent.fee_limit_lbtc.text
    && text_eq quote.hash_commitment.bytes intent.hash_commitment.bytes
    && text_eq quote.client_claim_pubkey intent.client_claim_pubkey
    && text_eq quote.client_refund_pubkey intent.client_refund_pubkey
    && text_eq quote.source_destination intent.source_destination
    && text_eq quote.destination_destination intent.destination_destination
    && text_eq quote.refund_destination intent.refund_destination
    && context_eq quote.deadline_context intent.deadline_context
    && text_eq quote.nonce intent.nonce

abbrev lacks_asset_hash : EndpointId → Bool
lacks_asset_hash e = text_eq e.asset_id (codes "TEST-DEPIX") && is_none e.asset_hash

-- `quote.amount_out.value()? < ... || quote.fee_lbtc.value()? > ... || ...`: an amount is read only
-- where the tests before it are false.
check_policy : Intent → Quote → ℕ → CoreResult (Unit {0})
check_policy intent quote now = do
  amount_out ← value quote.amount_out
  min_amount_out ← value intent.min_amount_out
  reject_if (ltb amount_out min_amount_out)
      (quote_rejected "amount, fee, or expiry policy rejected")
  fee ← value quote.fee_lbtc
  fee_limit ← value intent.fee_limit_lbtc
  reject_if
      (ltb fee_limit fee || ltb intent.expires_at quote.expires_at || leb quote.expires_at now)
      (quote_rejected "amount, fee, or expiry policy rejected")
  ok tt

module _ (p : Primitives) where
  unfoldable pub validate_quote_terms :
      Intent → Quote → RouteRegistry → DeadlineContext → ℕ → CoreResult (Unit {0})
  unfolding check_policy
  validate_quote_terms intent quote registry context now = do
    reject_if
        (not (intent.version == 1)
          || not (quote.version == 1)
          || not (intent.version == quote.version))
        (quote_rejected "unsupported or mismatched protocol version")
    validate p intent.source
    validate p intent.destination
    validate p quote.source
    validate p quote.destination
    reject_if (lacks_asset_hash intent.source || lacks_asset_hash intent.destination)
        (quote_rejected "TEST-DEPIX asset hash is required for settlement")
    reject_if (not (binds_intent quote intent))
        (quote_rejected "quote does not bind the signed intent")
    reject_if (not (is_enabled registry intent.source intent.destination))
        (unsupported_route (canonical_id intent.source) (canonical_id intent.destination))
    found ←
        ok_or (route registry intent.source intent.destination)
          (quote_rejected "route is absent from registry")
    reject_if (not (text_eq quote.adapter_id found.adapter_id))
        (quote_rejected "quote adapter is not the qualified route adapter")
    check_policy intent quote now
    reject_if (not (context_eq quote.deadline_context context))
        (deadline_rejected "quote deadline context does not match trusted observations")
    validate_deadline_order quote context now
