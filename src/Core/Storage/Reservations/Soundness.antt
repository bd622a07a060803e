-- ===== src/Core/Storage/Reservations/Soundness.antt =====
-- Every operation on reservations keeps the ledgers sound.
use cross_network_market_mak.Prelude.{
  ℕ, ◌+◌, ◌-◌, ◌<◌, ◌≡◌, refl, subst, true, false, some, arith, Bool-cases, inl, inr,
}
use cross_network_market_mak.Prelude.Text.{Text, text_eq, text_eq_iff, text_eq_refl}
use cross_network_market_mak.Prelude.Decimal.{
  u64_limit, parse_u64, to_string, parse_u64-lt, parse_u64-to_string,
}
use cross_network_market_mak.Core.Storage.Tables.{Db, LedgerRow, ReservationRow, find, modify}
use cross_network_market_mak.Core.Storage.Tables.Laws.{map_option, find-modify}
use cross_network_market_mak.Core.Storage.Codec.{
  Reservation, held, consumed, released, reservation_state_text,
}
use cross_network_market_mak.Core.Storage.Reservations.{
  is_held, close_if_held, to_row, set_reserved, set_balances,
}
use cross_network_market_mak.Core.Storage.Reservations.Balance.{
  Balanced, Covers, IsSound, weight, held_sum, held_sum-modify,
}
use cross_network_market_mak.Core.Storage.Reservations.Effects.{Reserves}
use cross_network_market_mak.Core.Storage.Reservations.Closing.{Consumes, Releases}

-- One ledger row changes, and only its solver's sum: soundness is a fact about that row.
module _ (k : Text) (f : LedgerRow → LedgerRow) (l : LedgerRow) (db db' : Db) where
  one_ledger-IsSound :
      db'.solver_ledgers ≡ modify k f db.solver_ledgers
      → find k db.solver_ledgers ≡ some l
      → ((s : Text)
          → text_eq k s ≡ false
          → held_sum s db'.reservations ≡ held_sum s db.reservations)
      → (Balanced l (held_sum k db.reservations) → Balanced (f l) (held_sum k db'.reservations))
      → IsSound db
      → IsSound db'
  one_ledger-IsSound tables found others own sound = record {
    at_solver = λ s.
        rw (tables, find-modify)
          (elim (Bool-cases (text_eq k s)) [
            | inl e ↦ rw e (
                subst
                  (λ x.
                    Covers (map_option f (find x db.solver_ledgers)) (held_sum x db'.reservations))
                  ((text_eq_iff k s).0 e) (rw found (own (rw found at (sound.at_solver k)))))
            | inr e ↦ rw (e, others s e) (sound.at_solver s)
          ]);
  }

-- Another solver's sum does not see the row.
weight_other :
    (s : Text) (row : ReservationRow) → text_eq row.solver_id s ≡ false → weight s row ≡ 0
unfolding weight
weight_other s row ne = ground arith

weight_own :
    (row : ReservationRow) (n : ℕ)
    → is_held row ≡ true
    → parse_u64 row.amount ≡ some n
    → weight row.solver_id row ≡ n
unfolding weight
weight_own row n h e = ground (arith, text_eq_refl row.solver_id)

closed_not_held :
    (text_eq (reservation_state_text consumed) (reservation_state_text held) ≡ false)
    × (text_eq (reservation_state_text released) (reservation_state_text held) ≡ false)
unfolding reservation_state_text text_eq
closed_not_held = (refl, refl)

-- A closed row holds nothing any more.
weight_closed :
    (s : Text) (row : ReservationRow)
    → (weight s (close_if_held consumed row) ≡ 0) × (weight s (close_if_held released row) ≡ 0)
unfolding weight
weight_closed s row = elim (Bool-cases (is_held row)) [
  | inl e ↦ ground (arith, closed_not_held)
  | inr e ↦ ground (arith, closed_not_held)
]

weight_closed_other :
    (s : Text) (row : ReservationRow)
    → text_eq row.solver_id s ≡ false
    → (weight s (close_if_held consumed row) ≡ 0)
      × (weight s (close_if_held released row) ≡ 0)
      × (weight s row ≡ 0)
weight_closed_other s row ne =
    ((weight_closed s row).0, (weight_closed s row).1, weight_other s row ne)

reads_back : (n m : ℕ) → n < u64_limit → n ≡ m → parse_u64 (to_string n) ≡ some m
reads_back n m h e = rw (← e) (parse_u64-to_string n h)

same_number : (t : Text) (a b : ℕ) → parse_u64 t ≡ some a → parse_u64 t ≡ some b → a ≡ b
same_number t a b e f = cc

new_row_held : (r : Reservation) → r.state ≡ held → is_held (to_row r) ≡ true
new_row_held r e = rw e (text_eq_refl (reservation_state_text held))

reserve_own :
    (r : Reservation) (asset_id : Text) (db db' : Db) (e : Reserves r asset_id db db')
    → r.state ≡ held
    → Balanced e.ledger (held_sum r.solver_id db.reservations)
    → Balanced
        (set_reserved (e.reserved + e.amount) e.ledger)
        (held_sum r.solver_id db'.reservations)
unfolding held_sum
reserve_own r asset_id db db' e st b =
    let before : e.reserved ≡ held_sum r.solver_id db.reservations =
      same_number e.ledger.reserved_amount _ _ e.reserved_reads b.reserved_reads in
    let room : e.available ≡ b.available =
      same_number e.ledger.available_amount _ _ e.available_reads b.available_reads in
    let own : weight r.solver_id (to_row r) ≡ e.amount =
      weight_own (to_row r) e.amount (new_row_held r st) e.amount_reads in
    rw e.row_added (record {
      available = b.available;
      consumed = b.consumed;
      available_reads = b.available_reads;
      reserved_reads = reads_back _ _ e.fits_u64 (omega arith);
      consumed_reads = b.consumed_reads;
      covered = omega (arith, e.fits);
    })

pub reserve-IsSound :
    (r : Reservation) (asset_id : Text) (db db' : Db)
    → Reserves r asset_id db db'
    → r.state ≡ held
    → IsSound db
    → IsSound db'
unfolding held_sum
reserve-IsSound r asset_id db db' e st sound =
    one_ledger-IsSound r.solver_id (set_reserved (e.reserved + e.amount)) e.ledger db db'
      e.sum_raised e.ledger_found
      (λ s ne. rw e.row_added (omega (arith, weight_other s (to_row r) ne)))
      (reserve_own r asset_id db db' e st) sound

module _ (id : Text) (row : ReservationRow) (db db' : Db)
    (found : find id db.reservations ≡ some row) where
  consume_own :
      (e : Consumes id row db db')
      → Balanced e.ledger (held_sum row.solver_id db.reservations)
      → Balanced
          (set_balances
            (e.available - e.amount)
            (e.reserved - e.amount)
            (e.spent + e.amount)
            e.ledger)
          (held_sum row.solver_id db'.reservations)
  consume_own e b =
      let before : e.reserved ≡ held_sum row.solver_id db.reservations =
        same_number e.ledger.reserved_amount _ _ e.reserved_reads b.reserved_reads in
      let room : e.available ≡ b.available =
        same_number e.ledger.available_amount _ _ e.available_reads b.available_reads in
      let own : weight row.solver_id row ≡ e.amount =
        weight_own row e.amount e.was_held e.amount_reads in
      let gone : weight row.solver_id (close_if_held consumed row) ≡ 0 =
        (weight_closed row.solver_id row).0 in
      let in_range : e.available < u64_limit = parse_u64-lt _ _ e.available_reads in
      let moved =
        held_sum-modify row.solver_id id (close_if_held consumed) row db.reservations found in
      rw e.row_closed (record {
        available = e.available - e.amount;
        consumed = e.spent + e.amount;
        available_reads = reads_back _ _ (omega arith) refl;
        reserved_reads = reads_back _ _ (omega arith) (omega (arith, moved, e.within_reserved));
        consumed_reads = reads_back _ _ e.fits_u64 refl;
        covered = omega (arith, moved, e.within_available, e.within_reserved);
      })

  pub consume-IsSound : Consumes id row db db' → IsSound db → IsSound db'
  consume-IsSound e =
      one_ledger-IsSound row.solver_id _ e.ledger db db' e.amounts_moved e.ledger_found
        (λ s ne. rw e.row_closed (
          omega (
            arith,
            held_sum-modify s id (close_if_held consumed) row db.reservations found,
            weight_closed_other s row ne,
          )))
        (consume_own e)

  release_own :
      (now : ℕ) (e : Releases id row now db db')
      → Balanced e.ledger (held_sum row.solver_id db.reservations)
      → Balanced
          (set_reserved (e.reserved - e.amount) e.ledger)
          (held_sum row.solver_id db'.reservations)
  release_own now e b =
      let before : e.reserved ≡ held_sum row.solver_id db.reservations =
        same_number e.ledger.reserved_amount _ _ e.reserved_reads b.reserved_reads in
      let own : weight row.solver_id row ≡ e.amount =
        weight_own row e.amount e.was_held e.amount_reads in
      let gone : weight row.solver_id (close_if_held released row) ≡ 0 =
        (weight_closed row.solver_id row).1 in
      let in_range : e.reserved < u64_limit = parse_u64-lt _ _ e.reserved_reads in
      let moved =
        held_sum-modify row.solver_id id (close_if_held released) row db.reservations found in
      rw e.row_closed (record {
        available = b.available;
        consumed = b.consumed;
        available_reads = b.available_reads;
        reserved_reads = reads_back _ _ (omega arith) (omega (arith, moved, e.within_reserved));
        consumed_reads = b.consumed_reads;
        covered = omega (arith, moved);
      })

  pub release-IsSound : (now : ℕ) → Releases id row now db db' → IsSound db → IsSound db'
  release-IsSound now e =
      one_ledger-IsSound row.solver_id _ e.ledger db db' e.sum_lowered e.ledger_found
        (λ s ne. rw e.row_closed (
          omega (
            arith,
            held_sum-modify s id (close_if_held released) row db.reservations found,
            weight_closed_other s row ne,
          )))
        (release_own now e)
