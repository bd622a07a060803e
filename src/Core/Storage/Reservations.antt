-- ===== src/Core/Storage/Reservations.antt =====
-- The solver ledgers and the reservations against them. A body that runs in a transaction maps the
-- database to the one that it would commit, or to the error that rolls it back.
pub mod Balance
pub mod Effects
pub mod Closing
pub mod Steps
pub mod Once
pub mod Verified
pub mod Soundness
use cross_network_market_mak.Prelude.{
  ℕ, ◌+◌, ◌-◌, ◌^◌, ltb, leb, Bool, true, false, not, ◌&&◌, ◌||◌, ◌++◌, Option, none, some, ok, err,
  ok_or, reject_if, if◌then◌else◌,
}
use cross_network_market_mak.Prelude.Outcome.{◌>>=◌, ◌>>◌}
use cross_network_market_mak.Prelude.Text.{Text, text_eq, option_eq, codes}
use cross_network_market_mak.Prelude.Decimal.{u64_limit, to_string, parse_u64}
use cross_network_market_mak.Core.Error.{CoreResult, storage}
use cross_network_market_mak.Core.Primitives.{Primitives, Bytes}
use cross_network_market_mak.Core.Amount
use cross_network_market_mak.Core.Amount.{CanonicalAmount, value, as_str}
use cross_network_market_mak.Core.Storage.Tables.{
  Db, Table, ReservationRow, LedgerRow, SwapRow, find, modify, insert, some_row,
}
use cross_network_market_mak.Core.Storage.Codec.{
  Reservation, ReservationState, held, consumed, released, Json, reservation_state_text,
  parse_reservation_state, is_releaseable_state, digest_text,
}
use cross_network_market_mak.Core.Storage.Journal.{JournalEntry, append_journal_transaction, commit}

-- `u64::checked_sub` and `u64::checked_add`.
abbrev pub checked_sub : ℕ → ℕ → Option ℕ
checked_sub a b = if leb b a then some (a - b) else none

abbrev pub checked_add : ℕ → ℕ → Option ℕ
checked_add a b = if ltb (a + b) u64_limit then some (a + b) else none

-- `parse_u64` of storage.rs: a stored amount.
unfoldable pub stored_amount : Text → CoreResult ℕ
stored_amount t = ok_or (parse_u64 t) (storage "invalid ledger amount {value}")

unfoldable pub read_ledger : Text → Db → CoreResult LedgerRow
read_ledger solver_id db =
    ok_or (find solver_id db.solver_ledgers) (storage "Query returned no rows")

-- INSERT OR IGNORE.
add_ledger_if_new : Option LedgerRow → Text → LedgerRow → Db → Db
add_ledger_if_new (some _) k row db = db
add_ledger_if_new none k row db = record db { solver_ledgers = insert k row db.solver_ledgers }

unfoldable pub ensure_solver_ledger :
    Text → Text → CanonicalAmount → Db → CoreResult (Unit {0}) × Db
unfolding add_ledger_if_new
ensure_solver_ledger solver_id asset_id available db = (
  ok tt,
  add_ledger_if_new (find solver_id db.solver_ledgers) solver_id
      (record {
        asset_id = asset_id;
        available_amount = as_str available;
        reserved_amount = codes "0";
        consumed_amount = codes "0";
      })
      db,
)

abbrev pub set_reserved : ℕ → LedgerRow → LedgerRow
set_reserved n row = record row { reserved_amount = to_string n }

abbrev pub set_balances : ℕ → ℕ → ℕ → LedgerRow → LedgerRow
set_balances a r c row = record row {
  available_amount = to_string a;
  reserved_amount = to_string r;
  consumed_amount = to_string c;
}

abbrev pub is_held : ReservationRow → Bool
is_held row = text_eq row.state (reservation_state_text held)

-- UPDATE reservations SET state = ... WHERE ... AND state = 'HELD'
abbrev pub close_if_held : ReservationState → ReservationRow → ReservationRow
close_if_held s row = if is_held row then record row { state = reservation_state_text s } else row

abbrev pub to_row : Reservation → ReservationRow
to_row r = record {
  solver_id = r.solver_id;
  quote_id = r.quote_id;
  swap_id = r.swap_id;
  amount = as_str r.amount;
  hash_commitment = r.hash_commitment;
  state = reservation_state_text r.state;
  expires_at = r.expires_at;
}

abbrev is_taken : Option ReservationRow → Bool
is_taken none = false
is_taken (some _) = true

-- The PRIMARY KEY and the two UNIQUE columns of the table.
unfoldable pub violates_unique : Reservation → Table ReservationRow → Bool
violates_unique r t =
    is_taken (find r.reservation_id t)
    || some_row (λ row. text_eq row.quote_id r.quote_id) t
    || some_row (λ row. text_eq row.hash_commitment r.hash_commitment) t

module _ (p : Primitives) (j : Json) where
  reserve_entry : Reservation → JournalEntry
  reserve_entry r = record {
    operation_key = codes "reserve:" ++ r.reservation_id;
    entity_id = r.reservation_id;
    request_digest = digest_text p (j.reservation_to_json r);
    payload_json = j.reservation_to_json r;
  }

  unfoldable pub reserve_body : Reservation → Text → Db → CoreResult Db
  unfolding reserve_entry
  reserve_body r asset_id db = do
    ledger ← read_ledger r.solver_id db
    reject_if (not (text_eq ledger.asset_id asset_id))
        (storage "reservation asset does not match solver ledger")
    available ← stored_amount ledger.available_amount
    reserved ← stored_amount ledger.reserved_amount
    amount ← value r.amount
    free ← ok_or (checked_sub available reserved) (storage "ledger reserved exceeds available")
    reject_if (ltb free amount) (storage "solver inventory is insufficient")
    reject_if (leb (2 ^ 63) r.expires_at) (storage "expiry exceeds SQLite range")
    reject_if (violates_unique r db.reservations) (storage "UNIQUE constraint failed")
    total ← ok_or (checked_add reserved amount) (storage "reserved amount overflow")
    append_journal_transaction (reserve_entry r) (record db {
      reservations = insert r.reservation_id (to_row r) db.reservations;
      solver_ledgers = modify r.solver_id (set_reserved total) db.solver_ledgers;
    })

  unfoldable pub reserve : Reservation → Text → Db → CoreResult (Unit {0}) × Db
  reserve r asset_id db = commit tt (reserve_body r asset_id db) db

-- The UPDATE of `attach_reservation` changes the row only WHERE swap_id IS NULL.
attach_row : Option Text → ReservationRow → Text → Text → ℕ → Db → CoreResult (Unit {0}) × Db
attach_row current row reservation_id swap_id now db =
    if option_eq current (some swap_id)
    then (ok tt, db)
    else if not (is_held row) || leb row.expires_at now
    then (err (storage "only an unexpired held reservation can attach"), db)
    else elim current [
      | none ↦ (
        ok tt,
        record db {
          reservations =
              modify reservation_id (λ r. record r { swap_id = some swap_id }) db.reservations;
        },
      )
      | some other ↦ (err (storage "reservation is missing or attached to another swap"), db)
    ]

attach_found : Option ReservationRow → Text → Text → ℕ → Db → CoreResult (Unit {0}) × Db
unfolding attach_row
attach_found none reservation_id swap_id now db = (err (storage "reservation does not exist"), db)
attach_found (some row) reservation_id swap_id now db =
    attach_row row.swap_id row reservation_id swap_id now db

unfoldable pub attach_reservation : Text → Text → ℕ → Db → CoreResult (Unit {0}) × Db
unfolding attach_found
attach_reservation reservation_id swap_id now db =
    attach_found (find reservation_id db.reservations) reservation_id swap_id now db

abbrev hash_mismatch : Option Text → Text → Bool
hash_mismatch none actual = false
hash_mismatch (some expected) actual = not (text_eq actual expected)

unfoldable pub consume_held : Text → ReservationRow → Db → CoreResult Db
consume_held reservation_id row db = do
  reject_if (not (is_held row)) (storage "reservation is not held")
  ledger ← read_ledger row.solver_id db
  available ← stored_amount ledger.available_amount
  reserved ← stored_amount ledger.reserved_amount
  consumed_sum ← stored_amount ledger.consumed_amount
  amount ← ok_or (parse_u64 row.amount) (storage "invalid ledger amount")
  reject_if (ltb available amount || ltb reserved amount)
      (storage "ledger balance assertion failed")
  available' ← ok_or (checked_sub available amount) (storage "available balance underflow")
  reserved' ← ok_or (checked_sub reserved amount) (storage "reserved balance underflow")
  consumed' ← ok_or (checked_add consumed_sum amount) (storage "consumed amount overflow")
  ok (record db {
    reservations = modify reservation_id (close_if_held consumed) db.reservations;
    solver_ledgers =
        modify row.solver_id (set_balances available' reserved' consumed') db.solver_ledgers;
  })

unfoldable pub consume_body : Text → Option Text → Db → CoreResult Db
consume_body reservation_id expected_hash db = do
  row ← ok_or (find reservation_id db.reservations) (storage "reservation does not exist")
  reject_if (hash_mismatch expected_hash row.hash_commitment)
      (storage "preimage does not match the reservation commitment")
  if text_eq row.state (reservation_state_text consumed)
      then ok db
      else consume_held reservation_id row db

unfoldable pub consume_reservation : Text → Db → CoreResult (Unit {0}) × Db
consume_reservation reservation_id db = commit tt (consume_body reservation_id none db) db

unfoldable pub consume_reservation_verified :
    Primitives → Text → Bytes → Db → CoreResult (Unit {0}) × Db
consume_reservation_verified p reservation_id preimage db =
    commit tt (consume_body reservation_id (some (digest_text p preimage)) db) db

-- An attached reservation waits for its swap to reach a state that exposes nothing.
check_attached : Option Text → Db → CoreResult (Unit {0})
check_attached none db = ok tt
check_attached (some swap_id) db = do
  swap ← ok_or (find swap_id db.swaps) (storage "attached reservation has no matching swap")
  reject_if (not (is_releaseable_state swap.state))
      (storage "exposed swap reservation cannot release")
  ok tt

unfoldable pub release_held : Text → ReservationRow → ℕ → Db → CoreResult Db
unfolding check_attached
release_held reservation_id row now db = do
  reject_if (not (is_held row)) (storage "consumed reservation cannot release")
  reject_if (ltb now row.expires_at) (storage "reservation has not expired")
  check_attached row.swap_id db
  ledger ← read_ledger row.solver_id db
  reserved ← stored_amount ledger.reserved_amount
  amount ← ok_or (parse_u64 row.amount) (storage "invalid ledger amount")
  reject_if (ltb reserved amount) (storage "ledger reserved balance assertion failed")
  reserved' ← ok_or (checked_sub reserved amount) (storage "reserved balance underflow")
  ok (record db {
    reservations = modify reservation_id (close_if_held released) db.reservations;
    solver_ledgers = modify row.solver_id (set_reserved reserved') db.solver_ledgers;
  })

unfoldable pub release_body : Text → ℕ → Db → CoreResult Db
release_body reservation_id now db = do
  row ← ok_or (find reservation_id db.reservations) (storage "reservation does not exist")
  if text_eq row.state (reservation_state_text released)
      then ok db
      else release_held reservation_id row now db

unfoldable pub release_reservation : Text → ℕ → Db → CoreResult (Unit {0}) × Db
release_reservation reservation_id now db = commit tt (release_body reservation_id now db) db

-- The row reader hands an error on as a failure of the query.
abbrev query_failure {ℓ} : {A : Type ℓ} → CoreResult A → CoreResult A
query_failure (ok a) = ok a
query_failure (err e) = err (storage "{error}")

read_row : Text → Option ReservationRow → CoreResult (Option Reservation)
read_row reservation_id none = ok none
read_row reservation_id (some row) = do
  amount ← query_failure (Amount.parse row.amount)
  state ← query_failure (parse_reservation_state row.state)
  ok (
      some (record {
        reservation_id = reservation_id;
        solver_id = row.solver_id;
        quote_id = row.quote_id;
        swap_id = row.swap_id;
        amount = amount;
        hash_commitment = row.hash_commitment;
        state = state;
        expires_at = row.expires_at;
      }))

unfoldable pub get_reservation : Text → Db → CoreResult (Option Reservation)
unfolding read_row
get_reservation reservation_id db = read_row reservation_id (find reservation_id db.reservations)

unfoldable pub get_ledger : Text → Db → CoreResult (Option LedgerRow)
get_ledger solver_id db = ok (find solver_id db.solver_ledgers)
