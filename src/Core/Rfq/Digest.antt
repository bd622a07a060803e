-- ===== src/Core/Rfq/Digest.antt =====
-- The bytes that a quote's signature covers, and `sign_quote` and `verify_quote`. Curve arithmetic
-- is a parameter.
pub mod Framing
pub mod Signing
use cross_network_market_mak.Prelude.{
  ℕ, zero, suc, ◌≡◌, true, ◌/◌, ◌%◌, ltb, length, List, [], ◌∷◌, ◌++◌, Option, none, some, ok,
  ok_or, reject_if, not, Bool, if◌then◌else◌, ◌-◌, ◌^◌,
}
use cross_network_market_mak.Prelude.Outcome.{◌>>=◌, ◌>>◌}
use cross_network_market_mak.Prelude.Text.{Text, codes}
use cross_network_market_mak.Prelude.Decimal.{to_string, u64_limit}
use cross_network_market_mak.Core.Error.{CoreResult, signature}
use cross_network_market_mak.Core.Primitives.{Primitives, Bytes}
use cross_network_market_mak.Core.Hash.{as_hex}
use cross_network_market_mak.Core.Endpoint.{canonical_id}
use cross_network_market_mak.Core.Routes.{RouteRegistry}
use cross_network_market_mak.Core.Rfq.{
  DeadlineContext, Intent, Quote, SignedQuote, PinnedSolverKeys, get,
}
use cross_network_market_mak.Core.Rfq.Terms.{validate_quote_terms}

-- The last `k` bytes of a number, the most significant first, before some more bytes.
unfoldable pub be_bytes : ℕ → ℕ → Bytes → Bytes
be_bytes zero n rest = rest
be_bytes (suc k) n rest = be_bytes k (n / 256) (n % 256 ∷ rest)

-- `u64::try_from(value.len()).unwrap_or(u64::MAX)`.
unfoldable pub length_field : Text → ℕ
length_field value = if ltb (length value) u64_limit then length value else 2 ^ 64 - 1

unfoldable pub append_field : Bytes → Text → Bytes
append_field output value = output ++ be_bytes 8 (length_field value) [] ++ value

unfoldable pub append_fields : Bytes → List Text → Bytes
append_fields output [] = output
append_fields output (v ∷ vs) = append_fields (append_field output v) vs

-- `as_deref().unwrap_or("")` and `map(to_string).unwrap_or_default()`.
abbrev text_or_empty : Option Text → Text
text_or_empty none = []
text_or_empty (some t) = t

abbrev number_or_empty : Option ℕ → Text
number_or_empty none = []
number_or_empty (some n) = to_string n

-- secp256k1: keys and signatures are read from bytes, which may fail.
pub record Curve : Type 1 where
  pub SecretKey : Type 0
  pub PublicKey : Type 0
  pub Signature : Type 0
  pub secret_key_from_slice : Bytes → Option SecretKey
  pub public_key_from_slice : Bytes → Option PublicKey
  pub signature_from_compact : Bytes → Option Signature
  pub serialize_compact : Signature → Bytes
  pub sign_ecdsa : Bytes → SecretKey → Signature
  pub verify_ecdsa : Bytes → Signature → PublicKey → Bool

-- Documented: what a secret key signs, its public key verifies, and a compact signature reads back.
pub record CurveLaws (c : Curve) : Type 0 where
  pub public_key : c.SecretKey → c.PublicKey
  pub sign_verifies :
      (m : Bytes) (k : c.SecretKey) → c.verify_ecdsa m (c.sign_ecdsa m k) (public_key k) ≡ true
  pub compact_round_trip :
      (s : c.Signature) → c.signature_from_compact (c.serialize_compact s) ≡ some s

module _ (p : Primitives) where
  unfoldable pub quote_fields : Quote → List Text
  quote_fields q =
      codes "xmm-quote-v1"
      ∷ to_string q.version
      ∷ q.quote_id
      ∷ q.intent_id
      ∷ canonical_id q.source
      ∷ canonical_id q.destination
      ∷ text_or_empty q.source.asset_hash
      ∷ text_or_empty q.destination.asset_hash
      ∷ q.amount_in.text
      ∷ q.min_amount_out.text
      ∷ q.amount_out.text
      ∷ q.fee_lbtc.text
      ∷ q.fee_limit_lbtc.text
      ∷ as_hex p q.hash_commitment
      ∷ q.client_claim_pubkey
      ∷ q.client_refund_pubkey
      ∷ q.source_destination
      ∷ q.destination_destination
      ∷ q.refund_destination
      ∷ to_string q.source_refund_height
      ∷ to_string q.destination_refund_height
      ∷ number_or_empty q.lightning_expiry_height
      ∷ to_string q.deadline_context.source_height
      ∷ to_string q.deadline_context.destination_height
      ∷ to_string q.deadline_context.source_refund_at
      ∷ to_string q.deadline_context.destination_refund_at
      ∷ number_or_empty q.deadline_context.lightning_expiry_at
      ∷ to_string q.deadline_context.margin_seconds
      ∷ to_string q.expires_at
      ∷ q.nonce
      ∷ q.solver_key_id
      ∷ q.adapter_id
      ∷ text_or_empty q.payment_request
      ∷ []

  unfoldable pub quote_digest : Quote → Bytes
  quote_digest quote = p.sha256 (append_fields [] (quote_fields quote))

  module _ (c : Curve) where
    unfoldable pub sign_quote : Quote → Text → CoreResult SignedQuote
    sign_quote quote secret_key_hex = do
      secret_key_bytes ← ok_or (p.hex_decode secret_key_hex) (signature "secret key is not hex")
      secret_key ← ok_or (c.secret_key_from_slice secret_key_bytes) (signature "{error}")
      ok (record {
        quote = quote;
        signature_hex =
            p.hex_encode (c.serialize_compact (c.sign_ecdsa (quote_digest quote) secret_key));
      })

    -- The pinned key and the signature of a quote.
    verify_signature : SignedQuote → PinnedSolverKeys → CoreResult (Unit {0})
    verify_signature signed_quote pinned_keys = do
      public_key_hex ←
          ok_or (get pinned_keys signed_quote.quote.solver_key_id)
            (signature "solver key is not pinned")
      public_key_bytes ←
          ok_or (p.hex_decode public_key_hex) (signature "pinned solver key is not hex")
      public_key ← ok_or (c.public_key_from_slice public_key_bytes) (signature "{error}")
      signature_bytes ←
          ok_or (p.hex_decode signed_quote.signature_hex) (signature "quote signature is not hex")
      parsed ← ok_or (c.signature_from_compact signature_bytes) (signature "{error}")
      reject_if (not (c.verify_ecdsa (quote_digest signed_quote.quote) parsed public_key))
          (signature "{error}")
      ok tt

    unfoldable pub verify_quote :
        Intent
        → SignedQuote
        → PinnedSolverKeys
        → RouteRegistry
        → DeadlineContext
        → ℕ
        → CoreResult (Unit {0})
    unfolding verify_signature
    verify_quote intent signed_quote pinned_keys registry context now = do
      validate_quote_terms p intent signed_quote.quote registry context now
      verify_signature signed_quote pinned_keys
