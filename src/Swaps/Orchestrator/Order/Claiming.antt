-- ===== src/Swaps/Orchestrator/Order/Claiming.antt =====
-- The claim leg keeps the order of a swap's effects.
use cross_network_market_mak.Prelude.{
  ◌≡◌, refl, true, not, ◌&&◌, any, Option, none, some, ok, err, arith, Bool-cases, inl, inr, subst,
}
use cross_network_market_mak.Core.Primitives.{Bytes}
use cross_network_market_mak.Swaps.Error.{SwapResult}
use cross_network_market_mak.Swaps.Effects.{
  ◌>>◌, OutboxKind, claim, refund, kind_eq, FundingOutbox, PreparedTransaction, FundingEvidence,
  ClaimEvidence, SwapRecoveryRecord, Adapters, World, Trace, write_outbox, asked, claim_pending,
  claim_observed, call, pure,
}
use cross_network_market_mak.Swaps.Orchestrator.{
  SwapDirection, persist_spend, claim_or_prepare, retry_claim, broadcast_outbox, claim_or_replay,
  validate_spend_outbox, expose, on_phase, observe_claim,
}
use cross_network_market_mak.Swaps.Orchestrator.Order.{
  is_claimed, before_claim, Post, Triple, Stable, bind-Post, bind_triple, lift_triple, call_triple,
  noting_triple,
}
use cross_network_market_mak.Swaps.Orchestrator.Order.Calls.{
  Durable, ReadBack, Observed, read_outbox-Triple, write_outbox-Triple, broadcast-Triple,
  noting-Observed, phase_kept,
}

module _ (d : SwapDirection) (x : Bytes) (a : Adapters) (P : Trace → Type 0)
    (stable : Stable P) where
  abbrev pub Claimed : ClaimEvidence → Trace → Type 0
  Claimed c t = P t × (any is_claimed t ≡ true)

  Durable-Stable : (o : FundingOutbox) → Stable (Durable P o)
  Durable-Stable o e t (p, q) = (stable e t p, ground (arith, q))

  persist_spend-Triple :
      (prepared : PreparedTransaction) → Triple d x P (persist_spend a claim prepared) (Durable P)
  unfolding persist_spend
  persist_spend-Triple prepared w h p =
      elim (Bool-cases
        (not (kind_eq prepared.outbox.kind claim) && not (kind_eq prepared.outbox.kind refund))) [
          | inl wrong ↦ rw wrong h
          | inr right ↦ rw right (
              bind-Post d x (λ _. Durable P prepared.outbox) (Durable P)
                (write_outbox a claim prepared.outbox w) (λ _. pure prepared.outbox)
                ((write_outbox-Triple d x a P stable) claim prepared.outbox w h p)
                (λ _ v g q. (g, q)))
        ]

  validate_spend_outbox-ok :
      (o v : FundingOutbox) (kind : OutboxKind) (f : FundingEvidence)
      → validate_spend_outbox o kind f ≡ ok v
      → o ≡ v
  unfolding validate_spend_outbox
  validate_spend_outbox-ok o v kind f h = ground arith

  claim_or_prepare-Triple :
      (r : SwapRecoveryRecord) (f : FundingEvidence) (o : Option FundingOutbox)
      → Triple d x ((ReadBack d x a P stable) o) (claim_or_prepare a r f o) (Durable P)
  unfolding claim_or_prepare
  claim_or_prepare-Triple r f (some o) =
      lift_triple d x ((ReadBack d x a P stable) (some o)) (Durable P)
        (validate_spend_outbox o claim f)
        (λ v t e q. subst (λ z. Durable P z t) (validate_spend_outbox-ok o v claim f e) q)
  claim_or_prepare-Triple r f none =
      bind_triple d x P (λ _. P) (Durable P) (call (λ t. a.prepare_spend t r f claim) asked)
        (persist_spend a claim)
        (call_triple d x P (λ _. P) (λ t. a.prepare_spend t r f claim) asked (λ t p. refl)
          (λ _ t p. stable asked t p))
        persist_spend-Triple

  observe_claim-Triple :
      (r : SwapRecoveryRecord) (o : FundingOutbox) → Triple d x P (observe_claim a r o) Claimed
  observe_claim-Triple r o =
      noting_triple d x P Claimed (λ t. a.observe_claim t r o r.session.material.preimage)
        claim_observed (λ _ t p. refl) (λ c t p. (stable (claim_observed (some c)) t p, refl))

  retry_claim-Post :
      (r : SwapRecoveryRecord) (o : FundingOutbox) (m : SwapResult ClaimEvidence × World)
      → (Observed d x a P stable) Claimed m
      → Post d x Claimed (retry_claim a r o m)
  unfolding retry_claim
  retry_claim-Post r o (ok c, w) h = h
  retry_claim-Post r o (err e, w) (h, p) =
      bind-Post d x (λ _. P) Claimed (call (λ t. a.confirm_spend t o) asked w)
        (λ _. observe_claim a r o)
        (call_triple d x P (λ _. P) (λ t. a.confirm_spend t o) asked (λ t q. refl)
          (λ _ t q. stable asked t q) w h p)
        (λ _. observe_claim-Triple r o)

  -- From the outbox on disk to the observed claim.
  claim_tail :
      (r : SwapRecoveryRecord) (o : FundingOutbox)
      → ((t : Trace) → P t → before_claim d x t ≡ true)
      → Triple d x
          (Durable P o)
          (do
            expose a
            on_phase a claim_pending
            broadcast_outbox a o
            (λ w. retry_claim a r o (observe_claim a r o w)))
          Claimed
  claim_tail r o ready w h p =
      bind-Post d x (λ _. Durable P o) Claimed _ _
        ((phase_kept d x a P stable) (Durable P o) claim_pending (Durable-Stable o) (λ t q. refl)
          (record w { funding_exposed = true }) h p)
        (λ _ w h p.
          bind-Post d x (λ _. Durable P o) Claimed _ _
            ((broadcast-Triple d x a P stable) (Durable P o) o (Durable-Stable o)
              (λ t (p, q). ground (arith, q, ready t p)) w h p)
            (λ _ w h p. retry_claim-Post r o (observe_claim a r o w) (
              (noting-Observed d x a P stable) Claimed
                (λ t. a.observe_claim t r o r.session.material.preimage) claim_observed
                (λ _ t. refl) (λ c t p. (stable (claim_observed (some c)) t p, refl)) w h (p.0))))

  pub claim_or_replay-Triple :
      (r : SwapRecoveryRecord) (f : FundingEvidence)
      → ((t : Trace) → P t → before_claim d x t ≡ true)
      → Triple d x P (claim_or_replay a r f) Claimed
  unfolding claim_or_replay
  claim_or_replay-Triple r f ready w h p =
      bind-Post d x (ReadBack d x a P stable) Claimed _ _
        ((read_outbox-Triple d x a P stable) claim w h p)
        (λ existing v g q.
          bind-Post d x (Durable P) Claimed _ _ (claim_or_prepare-Triple r f existing v g q)
            (λ o v g q. claim_tail r o ready v g q))
