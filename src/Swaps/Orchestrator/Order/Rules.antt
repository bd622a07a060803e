-- ===== src/Swaps/Orchestrator/Order/Rules.antt =====
-- What is known along a run.
use cross_network_market_mak.Prelude.{
  ◌≡◌, refl, true, false, any, some, ok, err, arith, Bool-cases, inl, inr, Bool, ◌||◌, subst,
}
use cross_network_market_mak.Prelude.Text.{option_eq}
use cross_network_market_mak.Core.Primitives.{Bytes}
use cross_network_market_mak.Swaps.Error.{SwapResult}
use cross_network_market_mak.Swaps.Effects.{
  funding, HoldInvoice, PaymentObservation, SwapRecoveryRecord, Adapters, World, Trace, call, asked,
  Effect, lift,
}
use cross_network_market_mak.Swaps.Orchestrator.{
  SwapDirection, CombinedSwapEvidence, is_settled, is_settled_recovery, verify_payment_preimage,
}
use cross_network_market_mak.Swaps.Orchestrator.Order.{
  is_funded, is_claimed, is_paid_with, is_ordered, Post, Triple, Stable, bind-Post, lift_triple,
  call_triple,
}
use cross_network_market_mak.Swaps.Orchestrator.Order.Calls.{ReadBack, read_outbox-Triple, Tracked}

abbrev pub Any : Trace → Type 0
Any t = Unit

pub Any-Stable : Stable Any
Any-Stable e t p = tt

or_true : (b : Bool) {c : Bool} → c ≡ true → (b || c) ≡ true
or_true true e = refl
or_true false e = e

-- A property, and an effect that has been seen.
abbrev pub And : (Trace → Type 0) → (Effect → Bool) → Trace → Type 0
And P seen t = P t × (any seen t ≡ true)

pub And-Stable : (P : Trace → Type 0) (seen : Effect → Bool) → Stable P → Stable (And P seen)
And-Stable P seen stable e t (p, q) = (stable e t p, or_true (seen e) q)

pub Post-ordered :
    {A : Type 0} (d : SwapDirection) (x : Bytes) (Q : A → Trace → Type 0) (m : SwapResult A × World)
    → Post d x Q m
    → is_ordered d x (m.1).trace ≡ true
Post-ordered d x Q (ok a, w) h = h.0
Post-ordered d x Q (err e, w) h = h

pub Post-ok :
    {A : Type 0} (d : SwapDirection) (x : Bytes) (Q : A → Trace → Type 0) (m : SwapResult A × World)
    (v : A)
    → Post d x Q m
    → m.0 ≡ ok v
    → Q v (m.1).trace
Post-ok d x Q (ok a, w) v h e = subst (λ z. Q z w.trace) (ground (arith, e)) (h.1)
Post-ok d x Q (err e, w) v h o = absurd (ground (arith, o))

verify_payment_preimage-ok :
    (o : PaymentObservation) (x : Bytes) (u : Unit {0})
    → verify_payment_preimage o x ≡ ok u
    → option_eq o.payment_preimage (some x) ≡ true
unfolding verify_payment_preimage
verify_payment_preimage-ok o x u h = ground arith

module _ (d : SwapDirection) (a : Adapters) (r : SwapRecoveryRecord) where
  pub is_settled_recovery-Triple :
      (i : HoldInvoice)
      → Triple d r.session.material.preimage Any (is_settled_recovery a i) (λ _. Any)
  unfolding is_settled_recovery
  is_settled_recovery-Triple i = elim (Bool-cases (is_settled i)) [
    | inr other ↦ rw other (λ w h p. (h, tt))
    | inl done ↦ rw done (λ w h p.
        bind-Post d r.session.material.preimage
          (ReadBack d r.session.material.preimage a Any Any-Stable) (λ _. Any) _ _
          (read_outbox-Triple d r.session.material.preimage a Any Any-Stable funding w h p)
          (λ existing v g q. (g, tt)))
  ]

  -- What a completed run has seen.
  abbrev pub Completed : CombinedSwapEvidence → Trace → Type 0
  Completed e t =
      (any is_funded t ≡ true)
      × (any is_claimed t ≡ true)
      × (any (is_paid_with r.session.material.preimage) t ≡ true)

  module _ (P : Trace → Type 0) (stable : Stable P) where
    -- A call whose answer adds nothing to what is known.
    pub plain_call :
        {A : Type 0} (answer : Trace → SwapResult A)
        → Triple d r.session.material.preimage P (call answer asked) (λ _. P)
    plain_call answer =
        call_triple d r.session.material.preimage P (λ _. P) answer asked (λ t p. refl)
          (λ _ t p. stable asked t p)

    pub plain_lift :
        {A : Type 0} (m : SwapResult A) → Triple d r.session.material.preimage P (lift m) (λ _. P)
    plain_lift m = lift_triple d r.session.material.preimage P (λ _. P) m (λ _ t _ p. p)

    -- A payment that is tracked and has the preimage is a payment that was seen.
    pub verified :
        (o : PaymentObservation)
        → Triple d r.session.material.preimage
            (Tracked d r.session.material.preimage a P stable o)
            (lift (verify_payment_preimage o r.session.material.preimage))
            (λ _. And P (is_paid_with r.session.material.preimage))
    verified o =
        lift_triple d r.session.material.preimage
          (Tracked d r.session.material.preimage a P stable o)
          (λ _. And P (is_paid_with r.session.material.preimage))
          (verify_payment_preimage o r.session.material.preimage)
          (λ u t e (p, paid).
            (p, paid (verify_payment_preimage-ok o r.session.material.preimage u e)))

abbrev pub Funds : Trace → Type 0
Funds = And Any is_funded

pub Funds-Stable : Stable Funds
Funds-Stable = And-Stable Any is_funded Any-Stable
