-- ===== src/Swaps/Orchestrator/Order/Funding.antt =====
-- The funding leg keeps the order of a swap's effects.
use cross_network_market_mak.Prelude.{
  ◌≡◌, refl, true, any, Option, none, some, ok, err, arith, Bool-cases, inl, inr, subst,
}
use cross_network_market_mak.Core.Primitives.{Bytes}
use cross_network_market_mak.Swaps.Error.{SwapResult}
use cross_network_market_mak.Swaps.Effects.{
  ◌>>=◌, ◌>>◌, funding, kind_eq, FundingOutbox, PreparedTransaction, FundingEvidence, SwapTerms,
  SwapRecoveryRecord, Adapters, World, Trace, write_outbox, asked, input_funding, input_locked,
  funding_observed, call, pure,
}
use cross_network_market_mak.Swaps.Orchestrator.{
  SwapDirection, persist_funding, funding_or_prepare, retry_funding, broadcast_outbox,
  prepare_or_replay_funding, validate_funding_outbox, or_zero, expose, on_phase, observe_funding,
}
use cross_network_market_mak.Swaps.Orchestrator.Order.{
  is_funded, Post, Triple, Stable, bind-Post, bind_triple, lift_triple, call_triple, noting_triple,
}
use cross_network_market_mak.Swaps.Orchestrator.Order.Calls.{
  Durable, ReadBack, Observed, read_outbox-Triple, write_outbox-Triple, broadcast-Triple,
  noting-Observed, phase_kept,
}

module _ (d : SwapDirection) (x : Bytes) (a : Adapters) (P : Trace → Type 0)
    (stable : Stable P) where
  -- A funding outbox that is on disk.
  abbrev pub Fundable : FundingOutbox → Trace → Type 0
  Fundable o t = Durable P o t × (kind_eq o.kind funding ≡ true)

  persist_funding-Triple :
      (prepared : PreparedTransaction) → Triple d x P (persist_funding a prepared) Fundable
  unfolding persist_funding
  persist_funding-Triple prepared w h p = elim (Bool-cases (kind_eq prepared.outbox.kind funding)) [
    | inr other ↦ rw other h
    | inl right ↦
        let o : FundingOutbox = record prepared.outbox { funding_vout = prepared.funding_vout } in
        rw right (
          bind-Post d x (λ _. Durable P o) Fundable (write_outbox a funding o w) (λ _. pure o)
            ((write_outbox-Triple d x a P stable) funding o w h p) (λ _ v g q. (g, (q, right))))
  ]

  validate_funding_outbox-ok :
      (o v : FundingOutbox)
      → validate_funding_outbox o ≡ ok v
      → (o ≡ v) × (kind_eq o.kind funding ≡ true)
  unfolding validate_funding_outbox
  validate_funding_outbox-ok o v h = ground arith

  funding_or_prepare-Triple :
      (r : SwapRecoveryRecord) (terms : SwapTerms) (o : Option FundingOutbox)
      → Triple d x ((ReadBack d x a P stable) o) (funding_or_prepare a r terms o) Fundable
  unfolding funding_or_prepare
  funding_or_prepare-Triple r terms (some o) =
      lift_triple d x ((ReadBack d x a P stable) (some o)) Fundable (validate_funding_outbox o)
        (λ v t e q.
          let (same, right) = validate_funding_outbox-ok o v e in
          (
            subst (λ z. Durable P z t) same q,
            subst (λ z. kind_eq z.kind funding ≡ true) same right,
          ))
  funding_or_prepare-Triple r terms none =
      bind_triple d x P (λ _. P) Fundable (call (λ t. a.prepare_funding t r terms) asked)
        (persist_funding a)
        (call_triple d x P (λ _. P) (λ t. a.prepare_funding t r terms) asked (λ t p. refl)
          (λ _ t p. stable asked t p))
        persist_funding-Triple

  abbrev pub Funded : FundingEvidence → Trace → Type 0
  Funded f t = P t × (any is_funded t ≡ true)

  observe_funding-Triple :
      (r : SwapRecoveryRecord) (terms : SwapTerms) (o : FundingOutbox)
      → Triple d x P (observe_funding a r terms o) Funded
  observe_funding-Triple r terms o =
      noting_triple d x P Funded
        (λ t. a.observe_funding t r o.txid (or_zero o.funding_vout) terms.asset_amount_sats)
        funding_observed (λ _ t p. refl) (λ f t p. (stable (funding_observed (some f)) t p, refl))

  retry_funding-Post :
      (r : SwapRecoveryRecord) (terms : SwapTerms) (o : FundingOutbox)
      (m : SwapResult FundingEvidence × World)
      → (Observed d x a P stable) Funded m
      → Post d x Funded (retry_funding a r terms o m)
  unfolding retry_funding
  retry_funding-Post r terms o (ok f, w) h = h
  retry_funding-Post r terms o (err e, w) (h, p) =
      bind-Post d x (λ _. P) Funded (call (λ t. a.confirm_funding t r o) asked w)
        (λ _. observe_funding a r terms o)
        (call_triple d x P (λ _. P) (λ t. a.confirm_funding t r o) asked (λ t q. refl)
          (λ _ t q. stable asked t q) w h p)
        (λ _. observe_funding-Triple r terms o)

  Fundable-Stable : (o : FundingOutbox) → Stable (Fundable o)
  Fundable-Stable o e t ((p, q), k) = ((stable e t p, ground (arith, q)), k)

  Funded-Stable : (f : FundingEvidence) → Stable (Funded f)
  Funded-Stable f e t (p, q) = (stable e t p, ground (arith, q))

  -- From the outbox on disk to the observed funding.
  funding_tail :
      (r : SwapRecoveryRecord) (terms : SwapTerms) (o : FundingOutbox)
      → Triple d x
          (Fundable o)
          (do
            expose a
            on_phase a input_funding
            broadcast_outbox a o
            evidence ← (λ w. retry_funding a r terms o (observe_funding a r terms o w))
            on_phase a input_locked
            pure evidence)
          Funded
  funding_tail r terms o w h p =
      bind-Post d x (λ _. Fundable o) Funded _ _
        ((phase_kept d x a P stable) (Fundable o) input_funding (Fundable-Stable o) (λ t q. refl)
          (record w { funding_exposed = true }) h p)
        (λ _ w h p.
          bind-Post d x (λ _. Fundable o) Funded _ _
            ((broadcast-Triple d x a P stable) (Fundable o) o (Fundable-Stable o)
              (λ t ((p, q), k). rw (q, k) refl) w h p)
            (λ _ w h p.
              bind-Post d x Funded Funded _ _
                (retry_funding-Post r terms o (observe_funding a r terms o w) (
                  (noting-Observed d x a P stable) Funded
                    (λ t.
                      a.observe_funding t r o.txid (or_zero o.funding_vout) terms.asset_amount_sats)
                    funding_observed (λ _ t. refl)
                    (λ f t p. (stable (funding_observed (some f)) t p, refl)) w h (p.0.0)))
                (λ f w h p.
                  bind-Post d x (λ _. Funded f) Funded _ _
                    ((phase_kept d x a P stable) (Funded f) input_locked (Funded-Stable f)
                      (λ t q. refl) w h p)
                    (λ _ w h p. (h, p)))))

  pub prepare_or_replay_funding-Triple :
      (r : SwapRecoveryRecord) (terms : SwapTerms)
      → Triple d x P (prepare_or_replay_funding a r terms) Funded
  unfolding prepare_or_replay_funding
  prepare_or_replay_funding-Triple r terms w h p =
      bind-Post d x (ReadBack d x a P stable) Funded _ _
        ((read_outbox-Triple d x a P stable) funding w h p)
        (λ existing v g q.
          bind-Post d x Fundable Funded _ _ (funding_or_prepare-Triple r terms existing v g q)
            (λ o v g q. funding_tail r terms o v g q))
