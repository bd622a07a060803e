-- ===== src/Swaps/Checks.antt =====
-- src/swaps/orchestrator.rs: its checks of invoices, payments and outboxes, and the evidence that it
-- returns.
pub mod Laws
use cross_network_market_mak.Prelude.{
  ℕ, ◌==◌, leb, Bool, true, false, not, ◌||◌, ◌&&◌, Option, none, some, ok, err, if◌then◌else◌,
}
use cross_network_market_mak.Prelude.Text.{Text, option_eq}
use cross_network_market_mak.Core.Primitives.{Bytes}
use cross_network_market_mak.Core.Endpoint.{is_none}
use cross_network_market_mak.Core.Rfq.Terms.{option_ℕ_eq}
use cross_network_market_mak.Core.Storage.Reservations.{checked_add}
pub use cross_network_market_mak.Swaps.Recovery.{
  SwapDirection, depix_to_lightning, lightning_to_depix,
}
use cross_network_market_mak.Lightning.Error.{LightningResult}
use cross_network_market_mak.Lightning.Bolt11.{
  Bolt11Invoice, InvoiceBinding, validate_payment_request,
}
use cross_network_market_mak.Swaps.Error.{
  SwapResult, recovery_mismatch, timing, lightning, chain, unknown,
}
use cross_network_market_mak.Swaps.Effects.{
  OutboxKind, funding, claim, kind_eq, canceled, FundingOutbox, FundingEvidence, ClaimEvidence,
  open_state, accepted, settled, HoldInvoice, succeeded, failed, PaymentObservation,
}

pub record CombinedSwapEvidence : Type 0 where
  pub direction : SwapDirection
  pub funding_txid : Text
  pub claim_txid : Text
  pub claim_confirmations : ℕ
  pub invoice_settled : Bool
  pub payer_succeeded : Bool
  pub preimage_verified : Bool
  pub accepted_expiry_height : Option ℕ

abbrev pub is_open : HoldInvoice → Bool
is_open i = elim i.state as (λ _. Bool) [ open_state ↦ true | _ ↦ false ]

abbrev pub is_accepted : HoldInvoice → Bool
is_accepted i = elim i.state as (λ _. Bool) [ accepted ↦ true | _ ↦ false ]

abbrev pub is_settled : HoldInvoice → Bool
is_settled i = elim i.state as (λ _. Bool) [ settled ↦ true | _ ↦ false ]

abbrev pub has_failed : PaymentObservation → Bool
has_failed o = elim o.state as (λ _. Bool) [ failed ↦ true | _ ↦ false ]

abbrev pub has_succeeded : PaymentObservation → Bool
has_succeeded o = elim o.state as (λ _. Bool) [ succeeded ↦ true | _ ↦ false ]

unfoldable pub validate_accepted : HoldInvoice → ℕ → ℕ → SwapResult (Unit {0})
validate_accepted invoice amount_sats current_height =
    if not (is_accepted invoice) && not (is_settled invoice)
    then err (unknown "Lightning invoice is {:?}, not accepted")
    else if not (option_ℕ_eq invoice.accepted_amount_sats (some amount_sats))
    then err (lightning "accepted Lightning amount does not match the quote")
    else if is_settled invoice
    then ok tt
    else elim invoice.accepted_expiry_height [
      | none ↦ err (unknown "accepted Lightning HTLC expiry is unavailable")
      | some expiry ↦ elim (checked_add current_height 6) [
        | none ↦ err (timing "Lightning expiry height overflows")
        | some required_height ↦
            if leb expiry required_height
            then err (timing "accepted Lightning HTLC has insufficient headroom")
            else ok tt
      ]
    ]

unfoldable pub verify_payment_preimage : PaymentObservation → Bytes → SwapResult (Unit {0})
verify_payment_preimage observation expected =
    if option_eq observation.payment_preimage (some expected)
    then ok tt
    else err (lightning "Lightning success did not return the committed preimage")

unfoldable pub build_evidence :
    SwapDirection → FundingEvidence → ClaimEvidence → Option ℕ → SwapResult CombinedSwapEvidence
build_evidence direction funding_evidence claim_evidence accepted_expiry_height =
    if not claim_evidence.preimage_verified || funding_evidence.confirmations == 0
    then err (chain "swap evidence is not confirmed and witness-bound")
    else ok (record {
      direction = direction;
      funding_txid = funding_evidence.txid;
      claim_txid = claim_evidence.txid;
      claim_confirmations = claim_evidence.confirmations;
      invoice_settled = true;
      payer_succeeded = true;
      preimage_verified = true;
      accepted_expiry_height = accepted_expiry_height;
    })

unfoldable pub validate_funding_outbox : FundingOutbox → SwapResult FundingOutbox
validate_funding_outbox o =
    if not (kind_eq o.kind funding)
    then err (recovery_mismatch "funding outbox has a non-funding kind")
    else if is_none o.funding_vout
    then err (recovery_mismatch "funding outbox lacks its HTLC output index")
    else ok o

unfoldable pub validate_spend_outbox :
    FundingOutbox → OutboxKind → FundingEvidence → SwapResult FundingOutbox
validate_spend_outbox o kind evidence =
    if not (kind_eq o.kind kind) || is_none o.funding_txid || is_none o.funding_vout
    then err (recovery_mismatch "spend outbox is incomplete or has the wrong kind")
    else if not (option_eq o.funding_txid (some evidence.txid))
        || not (option_ℕ_eq o.funding_vout (some evidence.vout))
    then err (recovery_mismatch "spend outbox does not bind the expected funding output")
    else ok o

abbrev pub or_zero : Option ℕ → ℕ
or_zero none = 0
or_zero (some n) = n

unfoldable pub validate_claim_outbox : FundingOutbox → SwapResult FundingOutbox
validate_claim_outbox o =
    if not (kind_eq o.kind claim) || is_none o.funding_txid || is_none o.funding_vout
    then err (recovery_mismatch "spend outbox is incomplete or has the wrong kind")
    else ok o

abbrev pub is_canceled_invoice : HoldInvoice → Bool
is_canceled_invoice i = elim i.state as (λ _. Bool) [ canceled ↦ true | _ ↦ false ]

unfoldable pub validate_invoice_amount : HoldInvoice → ℕ → SwapResult (Unit {0})
validate_invoice_amount invoice amount_sats =
    if not (invoice.amount_sats == amount_sats)
    then err (recovery_mismatch "existing hold invoice amount differs from the quote")
    else if is_canceled_invoice invoice
    then err (lightning "existing hold invoice was canceled")
    else if is_open invoice && is_none invoice.payment_request
    then err (lightning "open hold invoice did not return a payment request")
    else ok tt

-- `LightningError` as a text.
abbrev pub of_lightning {ℓ} : {A : Type ℓ} → LightningResult A → SwapResult A
of_lightning (ok a) = ok a
of_lightning (err e) = err (lightning "{error}")

abbrev pub drop_binding : SwapResult InvoiceBinding → SwapResult (Unit {0})
drop_binding (ok b) = ok tt
drop_binding (err e) = err e

unfoldable pub validate_open_request :
    (Text → Option Bolt11Invoice) → ℕ → Option Text → Bytes → ℕ → SwapResult (Unit {0})
validate_open_request parse now none hash amount_sats =
    err (lightning "open hold invoice lacks a payment request")
validate_open_request parse now (some request) hash amount_sats =
    drop_binding (of_lightning (validate_payment_request parse now request hash amount_sats))

unfoldable pub validate_open_invoice :
    (Text → Option Bolt11Invoice) → ℕ → HoldInvoice → ℕ → SwapResult (Unit {0})
unfolding validate_open_request
validate_open_invoice parse now invoice amount_sats =
    if not (is_open invoice)
    then ok tt
    else validate_open_request parse now invoice.payment_request invoice.payment_hash amount_sats
