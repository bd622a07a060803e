-- ===== src/Core/Storage/Codec.antt =====
-- Texts of the stored states, and what the store takes from `serde_json`.
use cross_network_market_mak.Prelude.{
  ◌≡◌, ◌↔◌, arith, refl, Option, ok, err, if◌then◌else◌, Bool, ◌||◌,
}
use cross_network_market_mak.Prelude.Text.{Text, text_eq, text_eq_iff, codes}
use cross_network_market_mak.Core.Error.{CoreResult, storage}
use cross_network_market_mak.Core.Primitives.{Primitives}
use cross_network_market_mak.Core.Amount.{CanonicalAmount}
use cross_network_market_mak.Core.Rfq.{Intent, SignedQuote}
use cross_network_market_mak.Core.Settlement.{
  SwapState, created, input_funding, input_locked, output_pending, output_unknown, output_settled,
  claim_pending, settled, refunding, refunded, failed,
}
use cross_network_market_mak.Prelude.{ℕ}

pub data ReservationState : Type 0 where
  held consumed released : ReservationState

pub record Reservation : Type 0 where
  pub reservation_id : Text
  pub solver_id : Text
  pub quote_id : Text
  pub swap_id : Option Text
  pub amount : CanonicalAmount
  pub hash_commitment : Text
  pub state : ReservationState
  pub expires_at : ℕ

pub record SwapRecord : Type 0 where
  pub swap_id : Text
  pub intent : Intent
  pub quote : SignedQuote
  pub state : SwapState
  pub funding_txid : Option Text
  pub claim_txid : Option Text
  pub payment_hash : Option Text
  pub payment_evidence_json : Option Text

-- JSON texts. Serialising these records does not fail; reading back may.
pub record Json : Type 0 where
  pub intent_to_json : Intent → Text
  pub intent_from_json : Text → Option Intent
  pub quote_to_json : SignedQuote → Text
  pub quote_from_json : Text → Option SignedQuote
  pub reservation_to_json : Reservation → Text
  -- `json!({ "from": .., "to": .., "payment_hash": .. })`
  pub transition_json : Text → Text → Option Text → Text
  -- `json!({ "funding_txid": .., "claim_txid": .., "payment_hash": .., "payment_evidence": .. })`
  pub evidence_json : Text → Text → Text → Text → Text

unfoldable pub state_text : SwapState → Text
state_text created = codes "CREATED"
state_text input_funding = codes "INPUT_FUNDING"
state_text input_locked = codes "INPUT_LOCKED"
state_text output_pending = codes "OUTPUT_PENDING"
state_text output_unknown = codes "OUTPUT_UNKNOWN"
state_text output_settled = codes "OUTPUT_SETTLED"
state_text claim_pending = codes "CLAIM_PENDING"
state_text settled = codes "SETTLED"
state_text refunding = codes "REFUNDING"
state_text refunded = codes "REFUNDED"
state_text failed = codes "FAILED"

unfoldable pub parse_state : Text → CoreResult SwapState
parse_state value =
    if text_eq value (codes "CREATED")
    then ok created
    else if text_eq value (codes "INPUT_FUNDING")
    then ok input_funding
    else if text_eq value (codes "INPUT_LOCKED")
    then ok input_locked
    else if text_eq value (codes "OUTPUT_PENDING")
    then ok output_pending
    else if text_eq value (codes "OUTPUT_UNKNOWN")
    then ok output_unknown
    else if text_eq value (codes "OUTPUT_SETTLED")
    then ok output_settled
    else if text_eq value (codes "CLAIM_PENDING")
    then ok claim_pending
    else if text_eq value (codes "SETTLED")
    then ok settled
    else if text_eq value (codes "REFUNDING")
    then ok refunding
    else if text_eq value (codes "REFUNDED")
    then ok refunded
    else if text_eq value (codes "FAILED")
    then ok failed
    else err (storage "unknown swap state {other}")

-- The derived `Debug` of a state, as `{next:?}` prints it.
unfoldable pub debug_text : SwapState → Text
debug_text created = codes "Created"
debug_text input_funding = codes "InputFunding"
debug_text input_locked = codes "InputLocked"
debug_text output_pending = codes "OutputPending"
debug_text output_unknown = codes "OutputUnknown"
debug_text output_settled = codes "OutputSettled"
debug_text claim_pending = codes "ClaimPending"
debug_text settled = codes "Settled"
debug_text refunding = codes "Refunding"
debug_text refunded = codes "Refunded"
debug_text failed = codes "Failed"

unfoldable pub reservation_state_text : ReservationState → Text
reservation_state_text held = codes "HELD"
reservation_state_text consumed = codes "CONSUMED"
reservation_state_text released = codes "RELEASED"

unfoldable pub parse_reservation_state : Text → CoreResult ReservationState
parse_reservation_state value =
    if text_eq value (codes "HELD")
    then ok held
    else if text_eq value (codes "CONSUMED")
    then ok consumed
    else if text_eq value (codes "RELEASED")
    then ok released
    else err (storage "unknown reservation state {other}")

unfoldable pub is_releaseable_state : Text → Bool
is_releaseable_state value =
    text_eq value (codes "CREATED")
    || text_eq value (codes "FAILED")
    || text_eq value (codes "REFUNDED")

unfoldable pub digest_text : Primitives → Text → Text
digest_text p value = p.hex_encode (p.sha256 value)

-- A stored state is read back as it was written.
pub parse_state-state_text : (s : SwapState) → parse_state (state_text s) ≡ ok s
unfolding parse_state state_text text_eq
parse_state-state_text created = refl
parse_state-state_text input_funding = refl
parse_state-state_text input_locked = refl
parse_state-state_text output_pending = refl
parse_state-state_text output_unknown = refl
parse_state-state_text output_settled = refl
parse_state-state_text claim_pending = refl
parse_state-state_text settled = refl
parse_state-state_text refunding = refl
parse_state-state_text refunded = refl
parse_state-state_text failed = refl

parse_state-ok : (t : Text) (s : SwapState) → parse_state t ≡ ok s → t ≡ state_text s
unfolding parse_state state_text
parse_state-ok t s h = ground (
  arith,
  text_eq_iff t (codes "CREATED"),
  text_eq_iff t (codes "INPUT_FUNDING"),
  text_eq_iff t (codes "INPUT_LOCKED"),
  text_eq_iff t (codes "OUTPUT_PENDING"),
  text_eq_iff t (codes "OUTPUT_UNKNOWN"),
  text_eq_iff t (codes "OUTPUT_SETTLED"),
  text_eq_iff t (codes "CLAIM_PENDING"),
  text_eq_iff t (codes "SETTLED"),
  text_eq_iff t (codes "REFUNDING"),
  text_eq_iff t (codes "REFUNDED"),
  text_eq_iff t (codes "FAILED"),
)

-- A stored text is read as a state if it is the text that the state is stored as, and only then.
pub parse_state_iff : (t : Text) (s : SwapState) → (parse_state t ≡ ok s) ↔ (t ≡ state_text s)
parse_state_iff t s = (parse_state-ok t s, λ e. rw e (parse_state-state_text s))
