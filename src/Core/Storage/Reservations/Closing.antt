-- ===== src/Core/Storage/Reservations/Closing.antt =====
-- What `consume_reservation` and `release_reservation` have done when they succeed.
use cross_network_market_mak.Prelude.{
  ℕ, ◌+◌, ◌-◌, ◌≤◌, ◌<◌, ◌≡◌, refl, true, Option, none, some, ok, arith, Option-cases, inl, inr,
}
use cross_network_market_mak.Prelude.Text.{Text}
use cross_network_market_mak.Prelude.Decimal.{u64_limit, parse_u64}
use cross_network_market_mak.Core.Storage.Tables.{
  Db, LedgerRow, ReservationRow, SwapRow, find, modify,
}
use cross_network_market_mak.Core.Storage.Codec.{consumed, released, is_releaseable_state}
use cross_network_market_mak.Core.Storage.Reservations.{
  read_ledger, stored_amount, is_held, set_balances, set_reserved, close_if_held, consume_held,
  release_held,
}

-- A held row is closed as consumed, and its amount moves from available and reserved to consumed.
pub record Consumes (id : Text) (row : ReservationRow) (db db' : Db) : Type 0 where
  pub ledger : LedgerRow
  pub available : ℕ
  pub reserved : ℕ
  pub spent : ℕ
  pub amount : ℕ
  pub was_held : is_held row ≡ true
  pub ledger_found : find row.solver_id db.solver_ledgers ≡ some ledger
  pub available_reads : parse_u64 ledger.available_amount ≡ some available
  pub reserved_reads : parse_u64 ledger.reserved_amount ≡ some reserved
  pub spent_reads : parse_u64 ledger.consumed_amount ≡ some spent
  pub amount_reads : parse_u64 row.amount ≡ some amount
  pub within_available : amount ≤ available
  pub within_reserved : amount ≤ reserved
  pub fits_u64 : spent + amount < u64_limit
  pub row_closed : db'.reservations ≡ modify id (close_if_held consumed) db.reservations
  pub amounts_moved :
      db'.solver_ledgers
      ≡ modify row.solver_id
          (set_balances (available - amount) (reserved - amount) (spent + amount))
          db.solver_ledgers
  pub swaps_same : db'.swaps ≡ db.swaps
  pub journal_same : db'.journal ≡ db.journal

pub consume_held-Consumes :
    (id : Text) (row : ReservationRow) (db db' : Db)
    → consume_held id row db ≡ ok db'
    → Consumes id row db db'
unfolding consume_held read_ledger stored_amount
consume_held-Consumes id row db db' h = elim (Option-cases (find row.solver_id db.solver_ledgers)) [
  | inl e ↦ ground arith
  | inr (l, el) ↦ elim (Option-cases (parse_u64 l.available_amount)) [
    | inl e ↦ ground arith
    | inr (a, ea) ↦ elim (Option-cases (parse_u64 l.reserved_amount)) [
      | inl e ↦ ground arith
      | inr (v, ev) ↦ elim (Option-cases (parse_u64 l.consumed_amount)) [
        | inl e ↦ ground arith
        | inr (c, ec) ↦ elim (Option-cases (parse_u64 row.amount)) [
          | inl e ↦ ground arith
          | inr (n, en) ↦ record {
            ledger = l;
            available = a;
            reserved = v;
            spent = c;
            amount = n;
            was_held = ground arith;
            ledger_found = el;
            available_reads = ea;
            reserved_reads = ev;
            spent_reads = ec;
            amount_reads = en;
            within_available = ground arith;
            within_reserved = ground arith;
            fits_u64 = ground arith;
            row_closed = ground arith;
            amounts_moved = ground arith;
            swaps_same = ground arith;
            journal_same = ground arith;
          }
        ]
      ]
    ]
  ]
]

-- The swap that the reservation is attached to, if any, exposes nothing.
abbrev pub MayRelease : Option Text → Db → Type 0
MayRelease none db = Unit
MayRelease (some swap_id) db =
    (swap : SwapRow) × (find swap_id db.swaps ≡ some swap)
    × (is_releaseable_state swap.state ≡ true)

-- A held row that has expired is closed as released, and its amount is no longer reserved.
pub record Releases (id : Text) (row : ReservationRow) (now : ℕ) (db db' : Db) : Type 0 where
  pub ledger : LedgerRow
  pub reserved : ℕ
  pub amount : ℕ
  pub was_held : is_held row ≡ true
  pub has_expired : row.expires_at ≤ now
  pub unexposed : MayRelease row.swap_id db
  pub ledger_found : find row.solver_id db.solver_ledgers ≡ some ledger
  pub reserved_reads : parse_u64 ledger.reserved_amount ≡ some reserved
  pub amount_reads : parse_u64 row.amount ≡ some amount
  pub within_reserved : amount ≤ reserved
  pub row_closed : db'.reservations ≡ modify id (close_if_held released) db.reservations
  pub sum_lowered :
      db'.solver_ledgers ≡ modify row.solver_id (set_reserved (reserved - amount)) db.solver_ledgers
  pub swaps_same : db'.swaps ≡ db.swaps
  pub journal_same : db'.journal ≡ db.journal

may_release :
    (id : Text) (row : ReservationRow) (now : ℕ) (db db' : Db)
    → release_held id row now db ≡ ok db'
    → (o : Option Text) → row.swap_id ≡ o
    → MayRelease o db
unfolding release_held
may_release id row now db db' h none e = tt
may_release id row now db db' h (some s) e = elim (Option-cases (find s db.swaps)) [
  | inl missing ↦ ground arith
  | inr (swap, found) ↦ (swap, found, ground arith)
]

pub release_held-Releases :
    (id : Text) (row : ReservationRow) (now : ℕ) (db db' : Db)
    → release_held id row now db ≡ ok db'
    → Releases id row now db db'
unfolding release_held read_ledger stored_amount
release_held-Releases id row now db db' h =
    elim (Option-cases (find row.solver_id db.solver_ledgers)) [
      | inl e ↦ ground arith
      | inr (l, el) ↦ elim (Option-cases (parse_u64 l.reserved_amount)) [
        | inl e ↦ ground arith
        | inr (v, ev) ↦ elim (Option-cases (parse_u64 row.amount)) [
          | inl e ↦ ground arith
          | inr (n, en) ↦ record {
            ledger = l;
            reserved = v;
            amount = n;
            was_held = ground arith;
            has_expired = ground arith;
            unexposed = may_release id row now db db' h row.swap_id refl;
            ledger_found = el;
            reserved_reads = ev;
            amount_reads = en;
            within_reserved = ground arith;
            row_closed = ground arith;
            sum_lowered = ground arith;
            swaps_same = ground arith;
            journal_same = ground arith;
          }
        ]
      ]
    ]
