-- ===== src/Exit/Proof/Laws.antt =====
-- What an exit proof and its accounting guarantee.
use cross_network_market_mak.Prelude.{
  ℕ, ◌+◌, ◌-◌, ◌/◌, ◌%◌, ◌≤◌, ◌<◌, ◌≡◌, ◌↔◌, inl, inr, refl, false, List, [], ◌∷◌, some, ok, arith,
  ◌^◌, ltb, All, ◌⊎◌, true, Bool-cases, Result-cases, Option-cases, any, ◌&&◌, ◌==◌, suc, get_elem?,
}
use cross_network_market_mak.Prelude.Text.{text_eq, text_eq_iff}
use cross_network_market_mak.Core.Primitives.{Bytes}
use cross_network_market_mak.Exit.Proof.{
  TxIn, TxOut, Transaction, CsvSpendProof, is_owned, OwnedOutputSet, ExitRecoveryAccounting,
  IdentifyCsvSpendArgs, Reader, validate_csv_sequence, is_foreign, owned_outputs, sum_values,
  verify_owned_outputs, find_spend, identify_csv_spend, account_exit_recovery, min,
}

-- The attributed amount is at most the principal. What is recovered is at most the final sweep, and
-- at most the principal less both fees; it is the attributed amount less both fees, or nothing.
pub account_exit_recovery-bounds :
    (principal timeout_output timeout_fee sweep sweep_fee : ℕ) (a : ExitRecoveryAccounting)
    → account_exit_recovery principal timeout_output timeout_fee sweep sweep_fee ≡ ok a
    → (a.attributable_final_sweep_sats ≤ principal)
      × (a.net_recovered_sats ≤ sweep)
      × (a.net_recovered_sats ≤ principal - (timeout_fee + sweep_fee))
      × (a.net_recovered_sats + min (timeout_fee + sweep_fee) a.attributable_final_sweep_sats
          ≡ a.attributable_final_sweep_sats)
unfolding account_exit_recovery
account_exit_recovery-bounds principal timeout_output timeout_fee sweep sweep_fee a h =
    (ground arith, ground arith, ground arith, ground arith)

-- A sequence is accepted if it is a relative lock in blocks, as BIP 68 reads it, of at least the
-- required delay; and only then.
pub validate_csv_sequence_iff :
    (sequence required : ℕ)
    → (validate_csv_sequence sequence required ≡ ok tt)
      ↔ ((sequence / 2 ^ 31 % 2 ≡ 0) × (sequence / 2 ^ 22 % 2 ≡ 0) × (required ≤ sequence % 2 ^ 16))
unfolding validate_csv_sequence
validate_csv_sequence_iff sequence required = ground arith

-- The values of the outputs.
unfoldable pub total_value : List TxOut → ℕ
total_value [] = 0
total_value (o ∷ os) = o.value + total_value os

sum_values-total : (t n : ℕ) (os : List TxOut) → sum_values t os ≡ ok n → t + total_value os ≡ n
unfolding sum_values total_value
sum_values-total t n [] h = ground arith
sum_values-total t n (o ∷ os) h = elim (Bool-cases (ltb (t + o.value) (2 ^ 64))) [
  | inl fits ↦ ground (arith, sum_values-total (t + o.value) n os)
  | inr overflows ↦ ground arith
]

owned_total :
    (scripts : List Bytes) (os : List TxOut)
    → any (is_foreign scripts) os ≡ false
    → total_value (owned_outputs scripts os) ≡ total_value os
unfolding owned_outputs total_value
owned_total scripts [] h = refl
owned_total scripts (o ∷ os) h = ground (arith, owned_total scripts os)

-- When the outputs are accepted, their whole value is what is reported: nothing positive goes to a
-- foreign script, and every output is counted once.
pub verify_owned_outputs-ok :
    (tx : Transaction) (scripts : List Bytes) (owned : OwnedOutputSet)
    → verify_owned_outputs tx scripts ≡ ok owned
    → (owned.amount_sats ≡ total_value tx.output)
      × (0 < owned.amount_sats)
      × (any (is_foreign scripts) tx.output ≡ false)
unfolding verify_owned_outputs
verify_owned_outputs-ok tx scripts owned h =
    let foreign : any (is_foreign scripts) tx.output ≡ false = ground arith in
    let total : total_value (owned_outputs scripts tx.output) ≡ owned.amount_sats = omega (
      arith,
      sum_values-total 0 owned.amount_sats (owned_outputs scripts tx.output) (ground arith),
    ) in
    (ground (arith, total, owned_total scripts tx.output foreign), ground arith, foreign)

find_spend-ok :
    (start n vout : ℕ) (txid : Bytes) (inputs : List TxIn) (i : TxIn)
    → find_spend start txid vout inputs ≡ some (n, i)
    → (i.previous_txid ≡ txid)
      × (i.previous_vout ≡ vout)
      × (k : ℕ) × (n ≡ start + k)
      × (get_elem? inputs k ≡ some i)
unfolding find_spend
find_spend-ok start n vout txid [] i h = absurd (ground arith)
find_spend-ok start n vout txid (j ∷ inputs) i h =
    elim (Bool-cases (text_eq j.previous_txid txid && j.previous_vout == vout)) [
      | inl spends ↦ (
        ground (arith, text_eq_iff j.previous_txid txid),
        ground arith,
        0,
        ground arith,
        ground arith,
      )
      | inr other ↦
          let (same, vouts, k, at, found) =
            find_spend-ok (suc start) n vout txid inputs i (ground (arith, other)) in
          (same, vouts, suc k, omega (arith, at), found)
    ]

-- The output pays nothing, or pays one of the scripts.
abbrev pub Owned : List Bytes → TxOut → Type 0
Owned scripts o = (o.value ≡ 0) ⊎ ((i : ℕ) × (get_elem? scripts i ≡ some o.script_pubkey))

is_owned-get_elem? :
    (scripts : List Bytes) (o : TxOut)
    → is_owned scripts o ≡ true
    → (i : ℕ) × (get_elem? scripts i ≡ some o.script_pubkey)
is_owned-get_elem? [] o h = absurd (cc)
is_owned-get_elem? (script ∷ scripts) o h = elim (Bool-cases (text_eq script o.script_pubkey)) [
  | inl here ↦ (0, ground (arith, text_eq_iff script o.script_pubkey))
  | inr other ↦ let (i, found) = is_owned-get_elem? scripts o (ground arith) in (suc i, found)
]

is_foreign-Owned :
    (scripts : List Bytes) (o : TxOut) → is_foreign scripts o ≡ false → Owned scripts o
is_foreign-Owned scripts o h = elim (Bool-cases (is_owned scripts o)) [
  | inl owned ↦ inr (is_owned-get_elem? scripts o owned)
  | inr other ↦ inl (ground arith)
]

any_foreign-All :
    (scripts : List Bytes) (os : List TxOut)
    → any (is_foreign scripts) os ≡ false
    → All (Owned scripts) os
any_foreign-All scripts [] h = tt
any_foreign-All scripts (o ∷ os) h =
    (is_foreign-Owned scripts o (ground arith), any_foreign-All scripts os (ground arith))

-- A sweep that is identified has an input that spends the source output, whose sequence the proof
-- reports and is a relative lock in blocks, as BIP 68 reads it, of at least the required delay. By
-- the given heights it is at least that many blocks after the source. Its whole value is recovered
-- and positive, and each output either pays nothing or pays one of the owned scripts.
pub identify_csv_spend-ok :
    (reader : Reader) (args : IdentifyCsvSpendArgs) (c : CsvSpendProof)
    → identify_csv_spend reader args ≡ ok c
    → (tx : Transaction) × (input : TxIn) × (reader.parse_transaction args.raw_hex ≡ some tx)
      × (get_elem? tx.input c.sweep_input_index ≡ some input)
      × (reader.parse_txid args.source_txid ≡ some input.previous_txid)
      × (input.previous_vout ≡ args.source_vout)
      × (c.sequence ≡ input.sequence)
      × (input.sequence / 2 ^ 31 % 2 ≡ 0)
      × (input.sequence / 2 ^ 22 % 2 ≡ 0)
      × (args.required_csv ≤ input.sequence % 2 ^ 16)
      × (args.source_height + args.required_csv ≤ args.sweep_height)
      × (c.recovered_sats ≡ total_value tx.output)
      × (0 < c.recovered_sats)
      × All (Owned args.owned_scripts) tx.output
unfolding identify_csv_spend
identify_csv_spend-ok reader args c h =
    elim (Option-cases (reader.parse_transaction args.raw_hex)) [
      | inl none_read ↦ absurd (ground arith)
      | inr (tx, read) ↦ elim (Option-cases (reader.parse_txid args.source_txid)) [
        | inl bad_id ↦ absurd (ground arith)
        | inr (id, parsed) ↦ elim (Option-cases (find_spend 0 id args.source_vout tx.input)) [
          | inl unspent ↦ absurd (ground arith)
          | inr ((n, input), found) ↦
              elim (Result-cases (verify_owned_outputs tx args.owned_scripts)) [
                | inr (e, failed) ↦ absurd (ground (arith, failed))
                | inl (owned, verified) ↦
                    let (same_id, same_vout, k, at, input_found) =
                      find_spend-ok 0 n args.source_vout id tx.input input found in
                    let (value, positive, foreign) =
                      verify_owned_outputs-ok tx args.owned_scripts owned verified in
                    let index : c.sweep_input_index ≡ k = ground (arith, at) in
                    let lock =
                      (validate_csv_sequence_iff input.sequence args.required_csv).0
                        (ground arith) in
                    (
                      tx,
                      input,
                      read,
                      rw index input_found,
                      rw same_id parsed,
                      same_vout,
                      ground arith,
                      lock.0,
                      lock.1,
                      lock.2,
                      ground arith,
                      ground arith,
                      ground arith,
                      any_foreign-All args.owned_scripts tx.output foreign,
                    )
              ]
        ]
      ]
    ]
