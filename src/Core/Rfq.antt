-- ===== src/Core/Rfq.antt =====
-- src/core/rfq.rs: intents, quotes and the keys of the solvers that are trusted.
pub mod Terms
pub mod Digest
pub mod Laws
use cross_network_market_mak.Prelude.{ℕ, List, [], ◌∷◌, Option, none, some, if◌then◌else◌}
use cross_network_market_mak.Prelude.Text.{Text, text_eq}
use cross_network_market_mak.Core.Amount.{CanonicalAmount}
use cross_network_market_mak.Core.Endpoint.{EndpointId}
use cross_network_market_mak.Core.Hash.{HashCommitment}

pub record DeadlineContext : Type 0 where
  pub source_height : ℕ
  pub destination_height : ℕ
  pub source_refund_height : ℕ
  pub destination_refund_height : ℕ
  pub lightning_expiry_height : Option ℕ
  pub source_refund_at : ℕ
  pub destination_refund_at : ℕ
  pub lightning_expiry_at : Option ℕ
  pub margin_seconds : ℕ

pub record Intent : Type 0 where
  pub version : ℕ
  pub intent_id : Text
  pub source : EndpointId
  pub destination : EndpointId
  pub amount_in : CanonicalAmount
  pub min_amount_out : CanonicalAmount
  pub fee_limit_lbtc : CanonicalAmount
  pub hash_commitment : HashCommitment
  pub client_claim_pubkey : Text
  pub client_refund_pubkey : Text
  pub source_destination : Text
  pub destination_destination : Text
  pub refund_destination : Text
  pub deadline_context : DeadlineContext
  pub created_at : ℕ
  pub expires_at : ℕ
  pub nonce : Text

pub record Quote : Type 0 where
  pub version : ℕ
  pub quote_id : Text
  pub intent_id : Text
  pub source : EndpointId
  pub destination : EndpointId
  pub amount_in : CanonicalAmount
  pub min_amount_out : CanonicalAmount
  pub amount_out : CanonicalAmount
  pub fee_lbtc : CanonicalAmount
  pub fee_limit_lbtc : CanonicalAmount
  pub hash_commitment : HashCommitment
  pub client_claim_pubkey : Text
  pub client_refund_pubkey : Text
  pub source_destination : Text
  pub destination_destination : Text
  pub refund_destination : Text
  pub source_refund_height : ℕ
  pub destination_refund_height : ℕ
  pub lightning_expiry_height : Option ℕ
  pub deadline_context : DeadlineContext
  pub expires_at : ℕ
  pub nonce : Text
  pub solver_key_id : Text
  pub adapter_id : Text
  pub payment_request : Option Text

pub record SignedQuote : Type 0 where
  pub quote : Quote
  pub signature_hex : Text

pub record PinnedSolverKeys : Type 0 where
  pub keys : List (Text × Text)

-- The key of the map is replaced in place.
insert_key : Text → Text → List (Text × Text) → List (Text × Text)
insert_key key_id key [] = (key_id, key) ∷ []
insert_key key_id key ((j, k) ∷ ks) =
    if text_eq j key_id then (key_id, key) ∷ ks else (j, k) ∷ insert_key key_id key ks

lookup_key : Text → List (Text × Text) → Option Text
lookup_key key_id [] = none
lookup_key key_id ((j, k) ∷ ks) = if text_eq j key_id then some k else lookup_key key_id ks

unfoldable pub insert : PinnedSolverKeys → Text → Text → PinnedSolverKeys
unfolding insert_key
insert pinned key_id public_key_hex = record { keys = insert_key key_id public_key_hex pinned.keys }

unfoldable pub get : PinnedSolverKeys → Text → Option Text
unfolding lookup_key
get pinned key_id = lookup_key key_id pinned.keys
