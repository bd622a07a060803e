-- ===== src/Core/Storage/Reservations/Effects.antt =====
-- What each operation has done when it succeeds.
use cross_network_market_mak.Prelude.{
  ℕ, ◌+◌, ◌^◌, ◌≤◌, ◌<◌, ◌≡◌, false, some, ok, arith, Option-cases, inl, inr,
}
use cross_network_market_mak.Prelude.Text.{Text, text_eq_iff}
use cross_network_market_mak.Prelude.Decimal.{u64_limit, parse_u64}
use cross_network_market_mak.Core.Primitives.{Primitives}
use cross_network_market_mak.Core.Amount.{value}
use cross_network_market_mak.Core.Storage.Tables.{Db, LedgerRow, find, modify, insert}
use cross_network_market_mak.Core.Storage.Codec.{Reservation, Json}
use cross_network_market_mak.Core.Storage.Journal.Laws.{SameBut, append-SameBut}
use cross_network_market_mak.Core.Storage.Reservations.{
  read_ledger, stored_amount, violates_unique, set_reserved, to_row, reserve_entry, reserve_body,
}

-- A reservation of `amount` that fits what is free, recorded as a row and added to the reserved sum.
pub record Reserves (r : Reservation) (asset_id : Text) (db db' : Db) : Type 0 where
  pub ledger : LedgerRow
  pub available : ℕ
  pub reserved : ℕ
  pub amount : ℕ
  pub ledger_found : find r.solver_id db.solver_ledgers ≡ some ledger
  pub asset_matches : ledger.asset_id ≡ asset_id
  pub available_reads : parse_u64 ledger.available_amount ≡ some available
  pub reserved_reads : parse_u64 ledger.reserved_amount ≡ some reserved
  pub amount_reads : parse_u64 r.amount.text ≡ some amount
  pub fits : reserved + amount ≤ available
  pub fits_u64 : reserved + amount < u64_limit
  pub expiry_fits : r.expires_at < 2 ^ 63
  pub is_new : violates_unique r db.reservations ≡ false
  pub row_added : db'.reservations ≡ insert r.reservation_id (to_row r) db.reservations
  pub sum_raised :
      db'.solver_ledgers ≡ modify r.solver_id (set_reserved (reserved + amount)) db.solver_ledgers
  pub swaps_same : db'.swaps ≡ db.swaps

-- The database before the journal is written.
abbrev reserved_db : Reservation → ℕ → Db → Db
reserved_db r total db = record db {
  reservations = insert r.reservation_id (to_row r) db.reservations;
  solver_ledgers = modify r.solver_id (set_reserved total) db.solver_ledgers;
}

module _ (p : Primitives) (j : Json) where
  -- A reservation that succeeds is new, is of the ledger's asset and fits what the ledger has free
  -- and a `u64`; it is recorded as a row, its amount is added to the reserved sum, and no swap
  -- changes.
  pub reserve-Reserves :
      (r : Reservation) (asset_id : Text) (db db' : Db)
      → reserve_body p j r asset_id db ≡ ok db'
      → Reserves r asset_id db db'
  unfolding reserve_body read_ledger stored_amount value
  reserve-Reserves r asset_id db db' h = elim (Option-cases (find r.solver_id db.solver_ledgers)) [
    | inl e ↦ ground arith
    | inr (l, el) ↦ elim (Option-cases (parse_u64 l.available_amount)) [
      | inl e ↦ ground arith
      | inr (a, ea) ↦ elim (Option-cases (parse_u64 l.reserved_amount)) [
        | inl e ↦ ground arith
        | inr (v, ev) ↦ elim (Option-cases (parse_u64 r.amount.text)) [
          | inl e ↦ ground arith
          | inr (n, en) ↦
              let same : SameBut (reserved_db r (v + n) db) db' =
                append-SameBut (reserve_entry p j r) (reserved_db r (v + n) db) db'
                  (ground arith) in
              record {
                ledger = l;
                available = a;
                reserved = v;
                amount = n;
                ledger_found = el;
                asset_matches = ground (arith, text_eq_iff l.asset_id asset_id);
                available_reads = ea;
                reserved_reads = ev;
                amount_reads = en;
                fits = ground arith;
                fits_u64 = ground arith;
                expiry_fits = ground arith;
                is_new = ground arith;
                row_added = same.reservations;
                sum_raised = same.solver_ledgers;
                swaps_same = same.swaps;
              }
        ]
      ]
    ]
  ]
