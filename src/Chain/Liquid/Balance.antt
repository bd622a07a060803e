-- ===== src/Chain/Liquid/Balance.antt =====
-- A Liquid transaction takes in of every asset what it puts out.
use cross_network_market_mak.Prelude.{
  ℕ, ◌+◌, ◌<◌, ltb, ◌≡◌, refl, List, [], ◌∷◌, ◌++◌, ok, err, if◌then◌else◌, arith, Bool-cases,
  Result-cases, inl, inr, then-ok, bind-ok, ap, sym, ◌∙◌,
}
use cross_network_market_mak.Prelude.Text.{text_eq}
use cross_network_market_mak.Core.Primitives.{Primitives, Bytes}
use cross_network_market_mak.Chain.Types.{ChainResult, AssetId}
use cross_network_market_mak.Chain.Types.Laws.{asset_eq_iff}
use cross_network_market_mak.Chain.Contract.{ScriptCrates}
use cross_network_market_mak.Chain.Bitcoin.{spend_lock_time}
use cross_network_market_mak.Chain.Liquid.{ElementsCrate}
use cross_network_market_mak.Chain.Liquid.Transactions.{
  LiquidSpendArgs, AssetOut, LiquidTransaction, ElementsTexts, payment_output, validate_fee_asset,
  new_fee, append_output, validate_spend_args, explicit_asset, spend_outputs, build_spend_of,
  parse_outpoint, build_liquid_htlc_spend,
}

-- The amount, if the asset is the one that is counted.
abbrev pub if_asset : Bytes → Bytes → ℕ → ℕ
if_asset counted asset amount = if text_eq asset counted then amount else 0

-- What outputs put out of an asset.
abbrev pub total : Bytes → List AssetOut → ℕ
total counted [] = 0
total counted (o ∷ os) = if_asset counted o.asset o.value + total counted os

total-append : (c : Bytes) (a b : List AssetOut) → total c (a ++ b) ≡ total c a + total c b
total-append c [] b = omega arith
total-append c (o ∷ a) b = omega (arith, total-append c a b)

total-append_output :
    (c asset : Bytes) (amount : ℕ) (script : Bytes)
    → total c (append_output asset amount script) ≡ if_asset c asset amount
unfolding append_output payment_output
total-append_output c asset amount script = elim (Bool-cases (ltb 0 amount)) [
  | inl positive ↦ rw positive (omega arith)
  | inr zero_amount ↦ rw zero_amount (ground arith)
]

amounts :
    (c payment fee : Bytes) (a b m n : ℕ)
    → a ≡ m
    → b ≡ n
    → if_asset c payment m + if_asset c fee n ≡ if_asset c payment a + if_asset c fee b
amounts c payment fee a b m n h k = rw (h, k) refl

abbrev outputs_of : ChainResult LiquidTransaction → List AssetOut
outputs_of (ok tx) = tx.output
outputs_of (err _) = []

if_asset-add :
    (c asset : Bytes) (m n : ℕ) → if_asset c asset (m + n) ≡ if_asset c asset m + if_asset c asset n
if_asset-add c asset m n = ground arith

module _ (p : Primitives) (s : ScriptCrates) (e : ElementsCrate) (x : ElementsTexts) where
  validate_spend_args-ok :
      (args : LiquidSpendArgs)
      → validate_spend_args p s e x args ≡ ok tt
      → (args.fee_input.amount_sats ≡ args.fee_change_amount_sats + args.fee_sats)
        × (0 < args.fee_sats)
        × (args.fee_input.asset_id ≡ args.fee_asset_id)
  unfolding validate_spend_args validate_fee_asset
  validate_spend_args-ok args h = (
    ground arith,
    ground arith,
    ground (arith, asset_eq_iff args.fee_input.asset_id args.fee_asset_id),
  )

  total-spend_outputs :
      (args : LiquidSpendArgs) (payment fee script c : Bytes)
      → total c (spend_outputs p s e x args payment fee script)
        ≡ if_asset c payment args.funding_amount_sats
          + if_asset c fee (args.fee_change_amount_sats + args.fee_sats)
  unfolding spend_outputs payment_output new_fee
  total-spend_outputs args payment fee script c =
      let b = append_output fee args.fee_change_amount_sats args.fee_change_script in
      omega (
        arith,
        total-append c b (new_fee args.fee_sats fee ∷ []),
        total-append_output c fee args.fee_change_amount_sats args.fee_change_script,
        if_asset-add c fee args.fee_change_amount_sats args.fee_sats,
      )

  -- What is paid and the fee are in explicit assets, and of each the outputs have what the inputs of
  -- those assets have.
  pub record Balanced (paid_asset fee_asset : AssetId) (paid fees : ℕ) (tx : LiquidTransaction)
      : Type 0 where
    pub payment : Bytes
    pub fee : Bytes
    pub is_payment : explicit_asset p s e x paid_asset ≡ ok payment
    pub is_fee : explicit_asset p s e x fee_asset ≡ ok fee
    pub totals : (c : Bytes) → total c tx.output ≡ if_asset c payment paid + if_asset c fee fees

  spend_Balanced :
      (args : LiquidSpendArgs) (payment fee : Bytes) (tx : LiquidTransaction)
      → validate_spend_args p s e x args ≡ ok tt
      → explicit_asset p s e x args.contract.asset_id ≡ ok payment
      → explicit_asset p s e x args.fee_asset_id ≡ ok fee
      → spend_outputs p s e x args payment fee args.destination_script ≡ tx.output
      → Balanced args.contract.asset_id args.fee_input.asset_id args.funding_amount_sats
          args.fee_input.amount_sats tx
  spend_Balanced args payment fee tx valid is_payment is_fee same =
      let v = validate_spend_args-ok args valid in
      record {
        payment = payment;
        fee = fee;
        is_payment = is_payment;
        is_fee = rw (v.2) is_fee;
        totals = λ k.
            ap (total k) (sym same)
            ∙ total-spend_outputs args payment fee args.destination_script k
            ∙ amounts k payment fee _ _ _ _ refl v.0;
      }

  build_spend_of-ok :
      (args : LiquidSpendArgs) (payment fee : Bytes) (tx : LiquidTransaction)
      → build_spend_of p s e x args payment fee ≡ ok tx
      → spend_outputs p s e x args payment fee args.destination_script ≡ tx.output
  unfolding build_spend_of
  build_spend_of-ok args payment fee tx h =
      elim (Result-cases (parse_outpoint p s e x args.fee_input)) [
        | inr (error, bad) ↦ absurd (ground arith)
        | inl (fees, first) ↦
            elim (Result-cases (spend_lock_time args.kind args.contract.refund_lock_height)) [
              | inr (error, bad) ↦ absurd (ground arith)
              | inl (height, second) ↦ ap outputs_of (rw (first, second, build_spend_of) at h)
            ]
      ]

  -- A claim or refund that is built puts out, of every asset, exactly what the funding output and the
  -- fee input have of it, each in the asset of the contract or of the input, the miner's fee included.
  pub build_liquid_htlc_spend-Balanced :
      (args : LiquidSpendArgs) (tx : LiquidTransaction)
      → build_liquid_htlc_spend p s e x args ≡ ok tx
      → Balanced args.contract.asset_id args.fee_input.asset_id args.funding_amount_sats
          args.fee_input.amount_sats tx
  unfolding build_liquid_htlc_spend
  build_liquid_htlc_spend-Balanced args tx h =
      let a = then-ok _ _ tx h in
      let b = bind-ok _ _ tx a.1 in
      let c = bind-ok _ _ tx b.2 in
      spend_Balanced args b.0 c.0 tx a.0 b.1 c.1 (build_spend_of-ok args b.0 c.0 tx c.2)
