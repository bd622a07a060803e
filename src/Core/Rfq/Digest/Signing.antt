-- ===== src/Core/Rfq/Digest/Signing.antt =====
-- What a signed quote binds, and when it verifies.
use cross_network_market_mak.Prelude.{◌≡◌, ◌<◌, refl, some, ok, arith, ℕ, All, List, [], ◌∷◌, map}
use cross_network_market_mak.Prelude.Decimal.{u64_limit, to_string, parse_u64-to_string}
use cross_network_market_mak.Prelude.Text.{Text}
use cross_network_market_mak.Core.Primitives.{Primitives, PrimitiveLaws, Bytes}
use cross_network_market_mak.Core.Hash.{as_hex}
use cross_network_market_mak.Core.Routes.{RouteRegistry}
use cross_network_market_mak.Core.Rfq.{
  DeadlineContext, Intent, Quote, SignedQuote, PinnedSolverKeys, get,
}
use cross_network_market_mak.Core.Rfq.Terms.{validate_quote_terms}
use cross_network_market_mak.Core.Rfq.Digest.{
  Curve, CurveLaws, quote_fields, quote_digest, sign_quote, verify_quote, append_fields,
}
use cross_network_market_mak.Core.Rfq.Digest.Framing.{Fits, append_fields-injective}

-- A value of Rust's `u64`.
abbrev pub IsU64 : ℕ → Type 0
IsU64 n = n < u64_limit

to_string-injective : (m n : ℕ) → IsU64 m → IsU64 n → to_string m ≡ to_string n → m ≡ n
to_string-injective m n hm hn e =
    let back : some m ≡ some n =
      rw (← parse_u64-to_string m hm, ← parse_u64-to_string n hn, e) refl in
    cc

map-to_string-injective :
    (ms ns : List ℕ) → All IsU64 ms → All IsU64 ns → map to_string ms ≡ map to_string ns → ms ≡ ns
map-to_string-injective [] [] hm hn e = refl
map-to_string-injective [] (n ∷ ns) hm hn e = cc
map-to_string-injective (m ∷ ms) [] hm hn e = cc
map-to_string-injective (m ∷ ms) (n ∷ ns) hm hn e =
    let head : m ≡ n = to_string-injective m n hm.0 hn.0 (ground arith) in
    let tail : ms ≡ ns = map-to_string-injective ms ns hm.1 hn.1 (ground arith) in
    rw (head, tail) refl

hex_encode-injective :
    (p : Primitives) → PrimitiveLaws p → (a b : Bytes) → p.hex_encode a ≡ p.hex_encode b → a ≡ b
hex_encode-injective p laws a b e =
    let back : some a ≡ some b = rw (← laws.decode_encode a, ← laws.decode_encode b, e) refl in cc

-- The numbers of a quote that are always signed.
abbrev pub signed_numbers : Quote → List ℕ
signed_numbers q =
    q.version ∷ q.source_refund_height ∷ q.destination_refund_height
    ∷ q.deadline_context.source_height ∷ q.deadline_context.destination_height
    ∷ q.deadline_context.source_refund_at ∷ q.deadline_context.destination_refund_at
    ∷ q.deadline_context.margin_seconds ∷ q.expires_at ∷ []

-- Two quotes whose fields are shorter than 2^64 bytes, whose numbers are in 64 bits and whose signed
-- bytes are the same agree on the quote and intent ids, on every amount, on the bytes of the
-- commitment, on every key and destination, on the nonce, the signing key and the adapter, and on the
-- version, the refund heights, the expiry and the heights, refund times and margin of the deadline
-- context; if decoding gives back what hex encoding encodes.
pub signed_bytes_bind :
    (p : Primitives)
    → PrimitiveLaws p
    → (q q' : Quote) → All IsU64 (signed_numbers q)
    → All IsU64 (signed_numbers q')
    → All Fits (quote_fields p q)
    → All Fits (quote_fields p q')
    → append_fields [] (quote_fields p q) ≡ append_fields [] (quote_fields p q')
    → (q.quote_id ≡ q'.quote_id)
      × (q.intent_id ≡ q'.intent_id)
      × (q.amount_in.text ≡ q'.amount_in.text)
      × (q.min_amount_out.text ≡ q'.min_amount_out.text)
      × (q.amount_out.text ≡ q'.amount_out.text)
      × (q.fee_lbtc.text ≡ q'.fee_lbtc.text)
      × (q.fee_limit_lbtc.text ≡ q'.fee_limit_lbtc.text)
      × (q.hash_commitment.bytes ≡ q'.hash_commitment.bytes)
      × (q.client_claim_pubkey ≡ q'.client_claim_pubkey)
      × (q.client_refund_pubkey ≡ q'.client_refund_pubkey)
      × (q.source_destination ≡ q'.source_destination)
      × (q.destination_destination ≡ q'.destination_destination)
      × (q.refund_destination ≡ q'.refund_destination)
      × (q.nonce ≡ q'.nonce)
      × (q.solver_key_id ≡ q'.solver_key_id)
      × (q.adapter_id ≡ q'.adapter_id)
      × (signed_numbers q ≡ signed_numbers q')
unfolding quote_fields as_hex
signed_bytes_bind p laws q q' in_u64 in_u64' fits fits' e =
    let same : quote_fields p q ≡ quote_fields p q' =
      append_fields-injective (quote_fields p q) (quote_fields p q') fits fits' e in
    let hash =
      hex_encode-injective p laws q.hash_commitment.bytes q'.hash_commitment.bytes (ground arith) in
    let numbers =
      map-to_string-injective (signed_numbers q) (signed_numbers q') in_u64 in_u64'
        (ground arith) in
    ground (arith, hash, numbers)

-- A quote that was signed with a secret key verifies, if its terms do and the public key is the one
-- that is pinned for its key id.
pub verify_quote-sign_quote :
    (p : Primitives) (c : Curve)
    → PrimitiveLaws p
    → (laws : CurveLaws c) (intent : Intent) (quote : Quote) (signed : SignedQuote)
      (secret public_hex : Text) (secret_bytes public_bytes : Bytes) (k : c.SecretKey)
      (pinned : PinnedSolverKeys) (registry : RouteRegistry) (context : DeadlineContext) (now : ℕ)
    → p.hex_decode secret ≡ some secret_bytes
    → c.secret_key_from_slice secret_bytes ≡ some k
    → get pinned quote.solver_key_id ≡ some public_hex
    → p.hex_decode public_hex ≡ some public_bytes
    → c.public_key_from_slice public_bytes ≡ some (laws.public_key k)
    → validate_quote_terms p intent quote registry context now ≡ ok tt
    → sign_quote p c quote secret ≡ ok signed
    → verify_quote p c intent signed pinned registry context now ≡ ok tt
unfolding sign_quote verify_quote
verify_quote-sign_quote p c hex laws intent quote signed secret public_hex secret_bytes public_bytes
      k pinned registry context now decoded secret_key pinned_key public_decoded public_key terms
      done =
    let is_signed : signed ≡ record {
      quote = quote;
      signature_hex = p.hex_encode (c.serialize_compact (c.sign_ecdsa (quote_digest p quote) k));
    } =
      ground (arith, decoded, secret_key, done) in
    rw
      (
        is_signed, terms, pinned_key, public_decoded, public_key, hex.decode_encode,
        laws.compact_round_trip, laws.sign_verifies,
      )
      refl
