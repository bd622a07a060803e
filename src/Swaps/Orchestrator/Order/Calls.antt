-- ===== src/Swaps/Orchestrator/Order/Calls.antt =====
-- The single calls keep the order of a swap's effects.
use cross_network_market_mak.Prelude.{
  ◌≡◌, refl, Bool, true, any, ◌∷◌, Option, none, some, ok, err, reject_if, arith, Bool-cases,
  Result-cases, inl, inr,
}
use cross_network_market_mak.Prelude.Text.{Text, text_eq_refl, option_eq, option_eq_iff}
use cross_network_market_mak.Core.Primitives.{Bytes}
use cross_network_market_mak.Core.Rfq.Terms.{option_ℕ_eq}
use cross_network_market_mak.Swaps.Error.{SwapError, SwapResult, lightning}
use cross_network_market_mak.Swaps.Effects.{
  SwapPhase, OutboxKind, funding, claim, refund, kind_eq, FundingOutbox, outbox_eq, HoldInvoice,
  PaymentObservation, SwapTerms, SwapRecoveryRecord, Adapters, World, Trace, outbox_read,
  outbox_written, read_outbox, write_outbox, file, phase, broadcast, hold_settled, payment_tracked,
  payment_sent, call, call_noting, lift, Effect, read_or_fail, write_or_fail, write_or_compare,
}
use cross_network_market_mak.Swaps.Orchestrator.{
  SwapDirection, broadcast_outbox, send_payment, pay_if_open, settle_invoice, track_success,
  has_succeeded, is_settled, is_open, has_failed, on_phase,
}
use cross_network_market_mak.Swaps.Orchestrator.Order.{
  is_paid_with, is_durable, before_settle, may_follow, is_ordered, Post, Triple, Stable,
  bind_triple, lift_triple, call_triple,
}

pub outbox_eq_refl : (o : FundingOutbox) → outbox_eq o o ≡ true
unfolding outbox_eq kind_eq option_ℕ_eq
outbox_eq_refl o = ground (
  arith,
  text_eq_refl o.txid,
  text_eq_refl o.raw_hex,
  option_eq_iff o.funding_txid o.funding_txid,
)

-- An outbox that is on disk, of one of the kinds.
abbrev pub Durable : (Trace → Type 0) → FundingOutbox → Trace → Type 0
Durable P o t = P t × (any (is_durable o) t ≡ true)

module _ (d : SwapDirection) (x : Bytes) (a : Adapters) (P : Trace → Type 0)
    (stable : Stable P) where
  abbrev pub ReadBack : Option FundingOutbox → Trace → Type 0
  ReadBack none t = P t
  ReadBack (some o) t = Durable P o t

  read_or_fail-Post :
      (e : Option SwapError) (o : Option FundingOutbox) (k : OutboxKind) (w : World)
      → file k w ≡ o
      → is_ordered d x w.trace ≡ true
      → P w.trace
      → Post d x ReadBack (read_or_fail e k w)
  unfolding read_or_fail is_ordered
  read_or_fail-Post (some e) o k w f h p = h
  read_or_fail-Post none none k w f h p = rw f (h, stable (outbox_read k none) w.trace p)
  read_or_fail-Post none (some o) k w f h p =
      rw f (h, (stable (outbox_read k (some o)) w.trace p, rw (outbox_eq_refl o) refl))

  pub read_outbox-Triple : (k : OutboxKind) → Triple d x P (read_outbox a k) ReadBack
  unfolding read_outbox
  read_outbox-Triple k w o p = read_or_fail-Post (a.file_error w.trace) (file k w) k w refl o p

  write_or_compare-Post :
      (e : Option FundingOutbox) (k : OutboxKind) (o : FundingOutbox) (w : World)
      → is_ordered d x w.trace ≡ true
      → P w.trace
      → Post d x {A = Unit} (λ _. Durable P o) (write_or_compare e k o w)
  unfolding write_or_compare is_ordered
  write_or_compare-Post none funding o w h p =
      (h, (stable (outbox_written funding (some o)) w.trace p, rw (outbox_eq_refl o) refl))
  write_or_compare-Post none claim o w h p =
      (h, (stable (outbox_written claim (some o)) w.trace p, rw (outbox_eq_refl o) refl))
  write_or_compare-Post none refund o w h p =
      (h, (stable (outbox_written refund (some o)) w.trace p, rw (outbox_eq_refl o) refl))
  write_or_compare-Post (some existing) k o w h p = elim (Bool-cases (outbox_eq existing o)) [
    | inl same ↦
        rw same (h, (stable (outbox_written k (some o)) w.trace p, rw (outbox_eq_refl o) refl))
    | inr other ↦ rw other h
  ]

  write_or_fail-Post :
      (e : Option SwapError) (left : Bool) (k : OutboxKind) (o : FundingOutbox) (w : World)
      → is_ordered d x w.trace ≡ true
      → P w.trace
      → Post d x {A = Unit} (λ _. Durable P o) (write_or_fail e left k o w)
  unfolding write_or_fail is_ordered
  write_or_fail-Post (some e) left k o w h p = h
  write_or_fail-Post none left k o w h p = write_or_compare-Post (file k w) k o w h p

  pub write_outbox-Triple :
      (k : OutboxKind) (o : FundingOutbox) → Triple d x P (write_outbox a k o) (λ _. Durable P o)
  unfolding write_outbox
  write_outbox-Triple k o w h p =
      write_or_fail-Post (a.file_error w.trace) (a.leaves_file w.trace) k o w h p

  pub broadcast-Triple :
      (Q : Trace → Type 0) (o : FundingOutbox)
      → Stable Q
      → ((t : Trace) → Q t → may_follow d x (broadcast o) t ≡ true)
      → Triple d x Q (broadcast_outbox a o) (λ _. Q)
  unfolding broadcast_outbox
  broadcast-Triple Q o s m =
      call_triple d x Q (λ _. Q) (λ t. a.broadcast_tx t o) (broadcast o) m
        (λ _ t q. s (broadcast o) t q)

  send_payment-Triple :
      (request : Option Text) (r : SwapRecoveryRecord) (terms : SwapTerms)
      → Triple d x P (send_payment a request r terms) (λ _. P)
  unfolding send_payment
  send_payment-Triple none r terms = λ w o p. o
  send_payment-Triple (some request) r terms =
      bind_triple d x P (λ _. P) (λ _. P)
        (call (λ t. a.pay t request r.session.material.hash_commitment terms) payment_sent)
        (λ observation. lift (
          reject_if (has_failed observation)
            (lightning "Lightning payment failed before the hold was accepted")))
        (call_triple d x P (λ _. P) (λ t. a.pay t request r.session.material.hash_commitment terms)
          payment_sent (λ t p. refl) (λ _ t p. stable payment_sent t p))
        (λ observation.
          lift_triple d x P (λ _. P)
            (reject_if (has_failed observation)
              (lightning "Lightning payment failed before the hold was accepted"))
            (λ _ t _ p. p))

  pub pay_if_open-Triple :
      (i : HoldInvoice) (r : SwapRecoveryRecord) (terms : SwapTerms)
      → Triple d x P (pay_if_open a i r terms) (λ _. P)
  unfolding pay_if_open
  pay_if_open-Triple i r terms = elim (Bool-cases (is_open i)) [
    | inl opened ↦ rw opened (send_payment-Triple i.payment_request r terms)
    | inr other ↦ rw other (λ w o p. (o, p))
  ]

  pub settle_invoice-Triple :
      (i : HoldInvoice)
      → ((t : Trace) → P t → before_settle d t ≡ true)
      → Triple d x P (settle_invoice a i x) (λ _. P)
  unfolding settle_invoice
  settle_invoice-Triple i m = elim (Bool-cases (is_settled i)) [
    | inl done ↦ rw done (λ w o p. (o, p))
    | inr pending ↦ rw pending (
        call_triple d x P (λ _. P) (λ t. a.settle_hold t i.payment_hash x) (hold_settled x) m
          (λ _ t p. stable (hold_settled x) t p))
  ]

  -- A payment that has succeeded, which was seen.
  abbrev pub Tracked : PaymentObservation → Trace → Type 0
  Tracked o t = P t × (option_eq o.payment_preimage (some x) ≡ true → any (is_paid_with x) t ≡ true)

  pub track_success-Triple : (hash : Bytes) → Triple d x P (track_success a hash) Tracked
  unfolding track_success is_ordered
  track_success-Triple hash w o p = elim (Result-cases (a.track_by_hash w.trace hash)) [
    | inl (observation, answered) ↦ elim (Bool-cases (has_succeeded observation)) [
      | inl paid ↦
          rw (answered, paid)
            (
              o,
              (stable (payment_tracked (some observation)) w.trace p, λ same. rw (paid, same) refl),
            )
      | inr unpaid ↦ rw (answered, unpaid) o
    ]
    | inr (e, failed) ↦ rw failed o
  ]

  -- An observation that may have failed, with what was known before it kept.
  abbrev pub Observed : {A : Type 0} → (A → Trace → Type 0) → SwapResult A × World → Type 0
  Observed Q (ok f, w) = (is_ordered d x w.trace ≡ true) × Q f w.trace
  Observed Q (err e, w) = (is_ordered d x w.trace ≡ true) × P w.trace

  pub noting-Observed :
      {A : Type 0} (Q : A → Trace → Type 0) (answer : Trace → SwapResult A) (e : Option A → Effect)
      → ((o : Option A) (t : Trace) → may_follow d x (e o) t ≡ true)
      → ((v : A) (t : Trace) → P t → Q v (e (some v) ∷ t))
      → (w : World) → is_ordered d x w.trace ≡ true
      → P w.trace
      → Observed Q (call_noting answer e w)
  unfolding is_ordered
  noting-Observed Q answer e m q w o p = elim (Result-cases (answer w.trace)) [
    | inl (v, answered) ↦ rw (answered, m (some v) w.trace, o) (refl, q v w.trace p)
    | inr (x, failed) ↦ rw (failed, m none w.trace, o) (refl, stable (e none) w.trace p)
  ]

  pub phase_kept :
      (Q : Trace → Type 0) (s : SwapPhase)
      → Stable Q
      → ((t : Trace) → Q t → may_follow d x (phase s) t ≡ true)
      → Triple d x Q (on_phase a s) (λ _. Q)
  phase_kept Q s q m =
      call_triple d x Q (λ _. Q) (λ t. a.on_phase t s) (phase s) m (λ _ t. q (phase s) t)
