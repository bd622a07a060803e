-- ===== src/Swaps/Effects.antt =====
-- What a swap does to the outside: the calls of the chain and Lightning adapters (traits of
-- src/swaps/adapter.rs and src/lightning), the outbox files of src/swaps/outbox.rs and the phases
-- of the observer. An answer may depend on everything that was done before it.
use cross_network_market_mak.Prelude.{
  ℕ, Bool, true, false, ◌&&◌, List, ◌∷◌, Option, none, some, Result, ok, err, if◌then◌else◌,
}
use cross_network_market_mak.Prelude.Text.{Text, text_eq, option_eq}
use cross_network_market_mak.Core.Primitives.{Bytes}
use cross_network_market_mak.Core.Rfq.Terms.{option_ℕ_eq}
pub use cross_network_market_mak.Chain.Types.{
  Chain, bitcoin_regtest, liquid_regtest, AssetId, native_bitcoin, explicit, FundingEvidence,
}
pub use cross_network_market_mak.Swaps.Recovery.{SwapRecoveryRecord}
use cross_network_market_mak.Lightning.Error.{LightningError}
use cross_network_market_mak.Swaps.Error.{SwapError, SwapResult, recovery_mismatch}

pub data OutboxKind : Type 0 where
  funding claim refund : OutboxKind

unfoldable pub kind_eq : OutboxKind → OutboxKind → Bool
kind_eq funding funding = true
kind_eq claim claim = true
kind_eq refund refund = true
kind_eq _ _ = false

pub record FundingOutbox : Type 0 where
  pub kind : OutboxKind
  pub txid : Text
  pub raw_hex : Text
  pub funding_txid : Option Text
  pub funding_vout : Option ℕ

unfoldable pub outbox_eq : FundingOutbox → FundingOutbox → Bool
outbox_eq a b =
    kind_eq a.kind b.kind
    && text_eq a.txid b.txid
    && text_eq a.raw_hex b.raw_hex
    && option_eq a.funding_txid b.funding_txid
    && option_ℕ_eq a.funding_vout b.funding_vout

pub record PreparedTransaction : Type 0 where
  pub outbox : FundingOutbox
  pub funding_vout : Option ℕ
  pub asset_id : AssetId
  pub amount_sats : ℕ

pub record ClaimEvidence : Type 0 where
  pub txid : Text
  pub funding_txid : Text
  pub funding_vout : ℕ
  pub confirmations : ℕ
  pub preimage_verified : Bool

pub record RefundEvidence : Type 0 where
  pub txid : Text
  pub funding_txid : Text
  pub funding_vout : ℕ
  pub confirmations : ℕ

pub data InvoiceState : Type 0 where
  open_state accepted settled canceled unknown_state : InvoiceState

pub record HoldInvoice : Type 0 where
  pub payment_hash : Bytes
  pub payment_request : Option Text
  pub state : InvoiceState
  pub amount_sats : ℕ
  pub cltv_expiry : ℕ
  pub add_index : Text
  pub accepted_amount_sats : Option ℕ
  pub accepted_expiry_height : Option ℕ

pub data PaymentState : Type 0 where
  in_flight succeeded failed unknown_payment : PaymentState

pub record PaymentObservation : Type 0 where
  pub payment_hash : Bytes
  pub state : PaymentState
  pub failure_reason : Option Text
  pub fee_sats : Option ℕ
  pub payment_preimage : Option Bytes

pub data SwapPhase : Type 0 where
  recovery_prepared input_funding input_locked output_pending output_unknown : SwapPhase
  output_settled claim_pending phase_settled refunding refunded : SwapPhase

-- A timeout is in seconds.
pub record SwapTerms : Type 0 where
  pub chain : Chain
  pub asset_id : AssetId
  pub fee_asset_id : AssetId
  pub amount_sats : ℕ
  pub asset_amount_sats : ℕ
  pub fee_sats : ℕ
  pub refund_lock_height : ℕ
  pub quote_id : Option Text
  pub lightning_cltv_limit : ℕ
  pub hold_cltv_expiry : ℕ
  pub fee_limit_sats : ℕ
  pub payment_timeout : ℕ
  pub claim_margin_seconds : Option ℕ

-- A call that was made, with what it answered where that matters later.
pub data Effect : Type 0 where
  phase : SwapPhase → Effect
  outbox_read outbox_written : OutboxKind → Option FundingOutbox → Effect
  broadcast : FundingOutbox → Effect
  funding_observed : Option FundingEvidence → Effect
  claim_observed : Option ClaimEvidence → Effect
  hold_settled : Bytes → Effect
  hold_canceled : Effect
  payment_sent : Effect
  payment_tracked : Option PaymentObservation → Effect
  invoice_seen : Option HoldInvoice → Effect
  height_seen : Option ℕ → Effect
  asked : Effect

-- Latest first.
abbrev pub Trace : Type 0
Trace = List Effect

pub record Adapters : Type 0 where
  -- SwapChainAdapter
  pub current_height : Trace → SwapResult ℕ
  pub prepare_funding : Trace → SwapRecoveryRecord → SwapTerms → SwapResult PreparedTransaction
  pub prepare_spend :
      Trace → SwapRecoveryRecord → FundingEvidence → OutboxKind → SwapResult PreparedTransaction
  pub broadcast_tx : Trace → FundingOutbox → SwapResult (Unit {0})
  pub confirm_funding : Trace → SwapRecoveryRecord → FundingOutbox → SwapResult (Unit {0})
  pub confirm_spend : Trace → FundingOutbox → SwapResult (Unit {0})
  pub observe_funding : Trace → SwapRecoveryRecord → Text → ℕ → ℕ → SwapResult FundingEvidence
  pub observe_claim : Trace → SwapRecoveryRecord → FundingOutbox → Bytes → SwapResult ClaimEvidence
  pub observe_refund : Trace → FundingOutbox → SwapResult RefundEvidence
  -- LightningAdapter of the receiver and of the payer
  pub lookup_invoice : Trace → Bytes → Result LightningError HoldInvoice
  pub create_hold_invoice : Trace → Bytes → SwapTerms → Option Text → SwapResult HoldInvoice
  pub observe_accepted : Trace → Bytes → ℕ → SwapResult HoldInvoice
  pub current_tip : Trace → SwapResult ℕ
  pub settle_hold : Trace → Bytes → Bytes → SwapResult (Unit {0})
  pub cancel_hold : Trace → Bytes → SwapResult (Unit {0})
  pub pay : Trace → Text → Bytes → SwapTerms → SwapResult PaymentObservation
  pub track_by_hash : Trace → Bytes → SwapResult PaymentObservation
  -- SwapObserver
  pub on_phase : Trace → SwapPhase → SwapResult (Unit {0})
  -- What an input or output error of the outbox files would be.
  pub file_error : Trace → Option SwapError
  -- Whether the record of a failed write is in the new file all the same, as when only the
  -- synchronization of the file failed. A file with a part of a record is one that `file_error` refuses.
  pub leaves_file : Trace → Bool

pub record World : Type 0 where
  pub trace : Trace
  pub funding_file : Option FundingOutbox
  pub claim_file : Option FundingOutbox
  pub refund_file : Option FundingOutbox
  pub funding_exposed : Bool

abbrev pub Swap : Type 0 → Type 0
Swap A = World → SwapResult A × World

abbrev pub pure : {A : Type 0} → A → Swap A
pure a w = (ok a, w)

abbrev pub lift : {A : Type 0} → SwapResult A → Swap A
lift r w = (r, w)

abbrev pub bind_result : {A B : Type 0} → SwapResult A × World → (A → Swap B) → SwapResult B × World
bind_result (ok a, w) f = f a w
bind_result (err e, w) f = (err e, w)

infixl 5 ◌>>=◌ ◌>>◌
abbrev pub ◌>>=◌ : {A B : Type 0} → Swap A → (A → Swap B) → Swap B
(m >>= f) w = bind_result (m w) f

abbrev pub ◌>>◌ : {A B : Type 0} → Swap A → Swap B → Swap B
(m >> k) w = bind_result (m w) (λ _. k)

-- Make a call and note it.
abbrev pub note : Effect → World → World
note e w = record w { trace = e ∷ w.trace }

abbrev pub call : {A : Type 0} → (Trace → SwapResult A) → Effect → Swap A
call answer e w = (answer w.trace, note e w)

abbrev pub answer_of : {A : Type 0} → SwapResult A → Option A
answer_of (ok a) = some a
answer_of (err e) = none

-- Make a call and note its answer.
abbrev pub call_noting : {A : Type 0} → (Trace → SwapResult A) → (Option A → Effect) → Swap A
call_noting answer e w = (answer w.trace, note (e (answer_of (answer w.trace))) w)

-- The outbox files, each at a path of its own.
abbrev pub file : OutboxKind → World → Option FundingOutbox
file claim w = w.claim_file
file refund w = w.refund_file
file funding w = w.funding_file

abbrev pub write_file : OutboxKind → FundingOutbox → World → World
write_file claim o w = record w { claim_file = some o }
write_file refund o w = record w { refund_file = some o }
write_file funding o w = record w { funding_file = some o }

unfoldable pub read_or_fail : Option SwapError → OutboxKind → Swap (Option FundingOutbox)
read_or_fail (some e) k w = (err e, note asked w)
read_or_fail none k w = (ok (file k w), note (outbox_read k (file k w)) w)

-- Exclusive creation: an existing file must hold the same record.
unfoldable pub write_or_compare :
    Option FundingOutbox → OutboxKind → FundingOutbox → Swap (Unit {0})
write_or_compare none k o w = (ok tt, note (outbox_written k (some o)) (write_file k o w))
write_or_compare (some existing) k o w =
    if outbox_eq existing o
    then (ok tt, note (outbox_written k (some o)) w)
    else (err (recovery_mismatch "funding outbox was mutated"), note (outbox_written k none) w)

-- A file that was not there, when a write of it failed.
abbrev leave : Bool → FundingOutbox → Option FundingOutbox → Option FundingOutbox
leave true o none = some o
leave true o (some existing) = some existing
leave false o f = f

abbrev leave_file : Bool → OutboxKind → FundingOutbox → World → World
leave_file left k o w = record w {
  funding_file = leave (left && kind_eq k funding) o w.funding_file;
  claim_file = leave (left && kind_eq k claim) o w.claim_file;
  refund_file = leave (left && kind_eq k refund) o w.refund_file;
}

unfoldable pub write_or_fail :
    Option SwapError → Bool → OutboxKind → FundingOutbox → Swap (Unit {0})
unfolding kind_eq
write_or_fail (some e) left k o w = (err e, note (outbox_written k none) (leave_file left k o w))
write_or_fail none left k o w = write_or_compare (file k w) k o w

module _ (a : Adapters) where
  unfoldable pub read_outbox : OutboxKind → Swap (Option FundingOutbox)
  read_outbox k w = read_or_fail (a.file_error w.trace) k w

  unfoldable pub write_outbox : OutboxKind → FundingOutbox → Swap (Unit {0})
  write_outbox k o w = write_or_fail (a.file_error w.trace) (a.leaves_file w.trace) k o w
