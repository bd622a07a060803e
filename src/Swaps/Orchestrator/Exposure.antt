-- ===== src/Swaps/Orchestrator/Exposure.antt =====
-- What a run exposes, and the rules that carry it through the runner's calls.
pub mod Legs
pub mod Payment
pub mod Cancel
use cross_network_market_mak.Prelude.{
  ℕ, ◌≡◌, refl, Bool, true, false, not, ◌&&◌, ◌||◌, any, Option, none, some, ok, err, arith,
  Bool-cases, inl, inr, if◌then◌else◌, reject_if,
}
use cross_network_market_mak.Prelude.Text.{Text}
use cross_network_market_mak.Core.Primitives.{Bytes}
use cross_network_market_mak.Swaps.Error.{SwapError, SwapResult, lightning, unknown}
use cross_network_market_mak.Swaps.Effects.{
  OutboxKind, funding, claim, refund, FundingOutbox, outbox_eq, FundingEvidence, ClaimEvidence,
  HoldInvoice, SwapTerms, SwapRecoveryRecord, Effect, broadcast, hold_canceled, Adapters, World,
  Swap, bind_result, file, read_or_fail, write_or_fail, write_or_compare, read_outbox, write_outbox,
  PreparedTransaction, kind_eq, call, call_noting, note, answer_of, pure, asked, Trace, phase,
  SwapPhase, input_funding, input_locked, claim_pending, funding_observed, claim_observed,
  payment_sent, payment_tracked, hold_settled,
}
use cross_network_market_mak.Swaps.Orchestrator.{
  CombinedSwapEvidence, is_open, is_settled, is_accepted, persist_funding, persist_spend,
  funding_or_prepare, claim_or_prepare, retry_funding, retry_claim, broadcast_outbox,
  prepare_or_replay_funding, claim_or_replay, send_payment, pay_if_open, settle_invoice,
  track_success, is_settled_recovery, run_forward_after_invoice, run_reverse_after_invoice,
  cancel_if_accepted, run_and_cancel, validate_funding_outbox, validate_spend_outbox,
  observe_funding, observe_claim, on_phase, or_zero, has_failed, has_succeeded,
}

abbrev pub is_broadcast : Effect → Bool
is_broadcast (broadcast o) = true
is_broadcast _ = false

abbrev pub is_canceled : Effect → Bool
is_canceled hold_canceled = true
is_canceled _ = false

-- Nothing was canceled, and what was broadcast was marked as exposed before.
abbrev pub Quiet : World → Type 0
Quiet w =
    ((w.funding_exposed || not (any is_broadcast w.trace)) && not (any is_canceled w.trace)) ≡ true

-- Nothing was canceled, and the run is marked as exposed.
abbrev pub Exposed : World → Type 0
Exposed w = (w.funding_exposed && not (any is_canceled w.trace)) ≡ true

Exposed-Quiet : (w : World) → Exposed w → Quiet w
Exposed-Quiet w q = ground arith

pub marked-Exposed : (w : World) → Quiet w → Exposed (record w { funding_exposed = true })
marked-Exposed w q = ground arith

-- The world after a call, whether it succeeded or not.
abbrev pub After : {A : Type 0} → (World → Type 0) → SwapResult A × World → Type 0
After K (ok v, w) = K w
After K (err e, w) = K w

pub answer-After :
    {A : Type 0} (K : World → Type 0) (r : SwapResult A) (w : World) → K w → After K (r, w)
answer-After K (ok v) w q = q
answer-After K (err e) w q = q

-- A call, whatever it answers.
pub call-After :
    {A : Type 0} (K : World → Type 0) (answer : Trace → SwapResult A) (e : Effect) (w : World)
    → K (note e w)
    → After K (call answer e w)
call-After K answer e w q = answer-After K (answer w.trace) (note e w) q

pub call_noting-After :
    {A : Type 0} (K : World → Type 0) (answer : Trace → SwapResult A) (e : Option A → Effect)
    (w : World)
    → ((o : Option A) → K (note (e o) w))
    → After K (call_noting answer e w)
call_noting-After K answer e w q =
    answer-After K (answer w.trace) (note (e (answer_of (answer w.trace))) w)
      (q (answer_of (answer w.trace)))

pub bind_result-After :
    {A B : Type 0} (K : World → Type 0) (m : SwapResult A × World) (f : A → Swap B)
    → After K m
    → ((v : A) (w : World) → K w → After K (f v w))
    → After K (bind_result m f)
bind_result-After K (ok v, w) f q h = h v w q
bind_result-After K (err e, w) f q h = q

pub After-Quiet : {A : Type 0} (m : SwapResult A × World) → After Exposed m → After Quiet m
After-Quiet (ok v, w) q = Exposed-Quiet w q
After-Quiet (err e, w) q = Exposed-Quiet w q

read_or_fail-Quiet :
    (e : Option SwapError) (k : OutboxKind) (w : World) → Quiet w → After Quiet (read_or_fail e k w)
unfolding read_or_fail
read_or_fail-Quiet none k w q = q
read_or_fail-Quiet (some e) k w q = q

write_or_compare-Quiet :
    (e : Option FundingOutbox) (k : OutboxKind) (o : FundingOutbox) (w : World)
    → Quiet w
    → After Quiet (write_or_compare e k o w)
unfolding write_or_compare
write_or_compare-Quiet none funding o w q = q
write_or_compare-Quiet none claim o w q = q
write_or_compare-Quiet none refund o w q = q
write_or_compare-Quiet (some existing) k o w q = elim (Bool-cases (outbox_eq existing o)) [
  | inl same ↦ rw same q
  | inr other ↦ rw other q
]

write_or_fail-Quiet :
    (e : Option SwapError) (left : Bool) (k : OutboxKind) (o : FundingOutbox) (w : World)
    → Quiet w
    → After Quiet (write_or_fail e left k o w)
unfolding write_or_fail
write_or_fail-Quiet none left k o w q = write_or_compare-Quiet (file k w) k o w q
write_or_fail-Quiet (some e) left k o w q = q

module _ (a : Adapters) where
  pub read-Quiet : (k : OutboxKind) (w : World) → Quiet w → After Quiet (read_outbox a k w)
  unfolding read_outbox
  read-Quiet k w q = read_or_fail-Quiet (a.file_error w.trace) k w q

  pub write-Quiet :
      (k : OutboxKind) (o : FundingOutbox) (w : World)
      → Quiet w
      → After Quiet (write_outbox a k o w)
  unfolding write_outbox
  write-Quiet k o w q = write_or_fail-Quiet (a.file_error w.trace) (a.leaves_file w.trace) k o w q
