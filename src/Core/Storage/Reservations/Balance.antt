-- ===== src/Core/Storage/Reservations/Balance.antt =====
-- The invariant of the ledgers: what is reserved is the sum of the held reservations.
use cross_network_market_mak.Prelude.{
  ℕ, ◌+◌, ◌≤◌, ◌≡◌, refl, ◌&&◌, Option, none, some, [], ◌∷◌, arith, if◌then◌else◌,
}
use cross_network_market_mak.Prelude.Text.{Text, text_eq}
use cross_network_market_mak.Prelude.Decimal.{parse_u64}
use cross_network_market_mak.Core.Storage.Tables.{
  Db, Table, ReservationRow, LedgerRow, find, modify,
}
use cross_network_market_mak.Core.Storage.Reservations.{is_held}

abbrev pub or_zero : Option ℕ → ℕ
or_zero none = 0
or_zero (some n) = n

-- What a row holds of a solver's inventory.
unfoldable pub weight : Text → ReservationRow → ℕ
weight solver row =
    if text_eq row.solver_id solver && is_held row then or_zero (parse_u64 row.amount) else 0

unfoldable pub held_sum : Text → Table ReservationRow → ℕ
held_sum solver [] = 0
held_sum solver ((k, row) ∷ t) = weight solver row + held_sum solver t

-- The amounts of a ledger are numbers, `held` of them are reserved, and that is covered.
pub record Balanced (l : LedgerRow) (held : ℕ) : Type 0 where
  pub available : ℕ
  pub consumed : ℕ
  pub available_reads : parse_u64 l.available_amount ≡ some available
  pub reserved_reads : parse_u64 l.reserved_amount ≡ some held
  pub consumed_reads : parse_u64 l.consumed_amount ≡ some consumed
  pub covered : held ≤ available

abbrev pub Covers : Option LedgerRow → ℕ → Type 0
Covers none held = held ≡ 0
Covers (some l) held = Balanced l held

-- Every solver's reserved amount is the sum of its held reservations, within what it has available,
-- and no reservation is held without a ledger.
pub record IsSound (db : Db) : Type 0 where
  pub at_solver : (s : Text) → Covers (find s db.solver_ledgers) (held_sum s db.reservations)

pub held_sum-modify :
    (s k : Text) (f : ReservationRow → ReservationRow) (row : ReservationRow)
    (t : Table ReservationRow)
    → find k t ≡ some row
    → held_sum s (modify k f t) + weight s row ≡ held_sum s t + weight s (f row)
unfolding held_sum find modify
held_sum-modify s k f row [] e = cc
held_sum-modify s k f row ((i, r) ∷ t) e = ground (arith, held_sum-modify s k f row t)

-- A change that moves no weight leaves every sum alone.
pub held_sum-modify_same :
    (s k : Text) (f : ReservationRow → ReservationRow) (t : Table ReservationRow)
    → ((r : ReservationRow) → weight s (f r) ≡ weight s r)
    → held_sum s (modify k f t) ≡ held_sum s t
unfolding held_sum modify
held_sum-modify_same s k f [] h = refl
held_sum-modify_same s k f ((i, r) ∷ t) h = ground (arith, h r, held_sum-modify_same s k f t h)

abbrev pub add_amounts : Option ℕ → Option ℕ → Option ℕ
add_amounts none c = none
add_amounts (some a) none = none
add_amounts (some a) (some c) = some (a + c)

-- What a solver has, spent or not.
abbrev pub worth_of : Option LedgerRow → Option ℕ
worth_of none = none
worth_of (some l) = add_amounts (parse_u64 l.available_amount) (parse_u64 l.consumed_amount)

unfoldable pub worth : Text → Db → Option ℕ
worth s db = worth_of (find s db.solver_ledgers)
