-- ===== src/Lightning/Bolt11/Laws.antt =====
-- What a payment request that is accepted binds.
use cross_network_market_mak.Prelude.{
  ℕ, ◌≡◌, ◌*◌, ◌<◌, ◌^◌, true, false, Option, some, ok, arith, Option-cases, inl, inr,
}
use cross_network_market_mak.Prelude.Text.{Text, text_eq_iff}
use cross_network_market_mak.Core.Primitives.{Bytes}
use cross_network_market_mak.Lightning.Bolt11.{
  Bolt11Invoice, InvoiceBinding, has_expired, validate_payment_request,
}

-- A payment request is accepted only if it is an invoice that is not expired, on regtest, for the
-- expected hash, and for exactly the expected amount, which does not overflow in thousandths.
pub validate_payment_request-ok :
    (parse : Text → Option Bolt11Invoice) (now : ℕ) (request : Text) (hash : Bytes) (amount : ℕ)
    (b : InvoiceBinding)
    → validate_payment_request parse now request hash amount ≡ ok b
    → (i : Bolt11Invoice) × (parse request ≡ some i)
      × (has_expired now i.expires_at ≡ false)
      × (i.is_regtest ≡ true)
      × (i.payment_hash ≡ hash)
      × (i.amount_milli_satoshis ≡ some (amount * 1000))
      × (amount * 1000 < 2 ^ 64)
      × (b ≡ record { payment_hash = hash; amount_sats = amount })
unfolding validate_payment_request
validate_payment_request-ok parse now request hash amount b h =
    elim (Option-cases (parse request)) [
      | inl bad ↦ absurd (ground arith)
      | inr (i, found) ↦
          let same : i.payment_hash ≡ hash = ground (arith, text_eq_iff i.payment_hash hash) in
          (
            i,
            found,
            ground arith,
            ground arith,
            same,
            ground arith,
            ground arith,
            ground (arith, same),
          )
    ]
