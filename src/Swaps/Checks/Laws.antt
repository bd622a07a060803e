-- ===== src/Swaps/Checks/Laws.antt =====
-- The checks of invoices and outboxes.
use cross_network_market_mak.Prelude.{
  ℕ, ◌+◌, ◌<◌, ◌≡◌, ◌⊎◌, ◌↔◌, ◌^◌, true, Option, some, ok, arith, inl, inr, Option-cases,
  Bool-cases,
}
use cross_network_market_mak.Prelude.Text.{option_eq_iff}
use cross_network_market_mak.Core.Rfq.Terms.{option_ℕ_eq}
use cross_network_market_mak.Swaps.Effects.{
  accepted, settled, HoldInvoice, OutboxKind, kind_eq, FundingOutbox, FundingEvidence,
}
use cross_network_market_mak.Swaps.Checks.{is_settled, validate_accepted, validate_spend_outbox}

option_ℕ_eq_iff : (a b : Option ℕ) → (option_ℕ_eq a b ≡ true) ↔ (a ≡ b)
unfolding option_ℕ_eq
option_ℕ_eq_iff a b = ground arith

kind_eq_iff : (a b : OutboxKind) → (kind_eq a b ≡ true) ↔ (a ≡ b)
unfolding kind_eq
kind_eq_iff a b = ground arith

state_of_accepted :
    (i : HoldInvoice) (amount height : ℕ)
    → validate_accepted i amount height ≡ ok tt
    → (i.state ≡ settled)
      ⊎ ((i.state ≡ accepted)
          × (expiry : ℕ) × (i.accepted_expiry_height ≡ some expiry)
          × (height + 6 < 2 ^ 64)
          × (height + 6 < expiry))
unfolding validate_accepted
state_of_accepted i amount height h = elim (Bool-cases (is_settled i)) [
  | inl done ↦ inl (ground (arith, done))
  | inr pending ↦ elim (Option-cases i.accepted_expiry_height) [
    | inl absent ↦ absurd (ground (arith, pending, absent))
    | inr (expiry, known) ↦ inr (
      ground (arith, pending),
      expiry,
      known,
      ground (arith, pending, known),
      ground (arith, pending, known),
    )
  ]
]

-- An invoice passes if it has the quoted amount accepted and is settled, or is accepted with an
-- expiry that is known and more than six blocks ahead, in 64 bits; and only then.
pub validate_accepted_iff :
    (i : HoldInvoice) (amount height : ℕ)
    → (validate_accepted i amount height ≡ ok tt) ↔ (
        (i.accepted_amount_sats ≡ some amount)
        × ((i.state ≡ settled)
            ⊎ ((i.state ≡ accepted)
                × (expiry : ℕ) × (i.accepted_expiry_height ≡ some expiry)
                × (height + 6 < 2 ^ 64)
                × (height + 6 < expiry))))
unfolding validate_accepted
validate_accepted_iff i amount height = (
  λ h. (
    ground (arith, option_ℕ_eq_iff i.accepted_amount_sats (some amount)),
    state_of_accepted i amount height h,
  ),
  λ (q, s). elim s [
    | inl done ↦ ground (arith, option_ℕ_eq_iff i.accepted_amount_sats (some amount))
    | inr (waits, expiry, known, fits, ahead) ↦
        ground (arith, option_ℕ_eq_iff i.accepted_amount_sats (some amount))
  ],
)

-- A spend outbox passes if it has the expected kind and spends the expected funding output, and only
-- then; it is passed on unchanged.
pub validate_spend_outbox_iff :
    (o v : FundingOutbox) (kind : OutboxKind) (f : FundingEvidence)
    → (validate_spend_outbox o kind f ≡ ok v) ↔ (
        (o ≡ v) × (o.kind ≡ kind) × (o.funding_txid ≡ some f.txid) × (o.funding_vout ≡ some f.vout))
unfolding validate_spend_outbox
validate_spend_outbox_iff o v kind f = ground (
  arith,
  kind_eq_iff o.kind kind,
  option_eq_iff o.funding_txid (some f.txid),
  option_ℕ_eq_iff o.funding_vout (some f.vout),
)
