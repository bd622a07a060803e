-- ===== src/Core/Storage/Swaps/Transitions.antt =====
-- What a transition of a stored swap does.
use cross_network_market_mak.Prelude.{
  ◌≡◌, ◌⊎◌, refl, subst, Result-cases, true, Option, none, some, ok, err, ok_or, arith,
  Option-cases, inl, inr,
}
use cross_network_market_mak.Prelude.Text.{Text, text_eq_refl}
use cross_network_market_mak.Prelude.Outcome.{◌>>=◌}
use cross_network_market_mak.Core.Error.{CoreResult, storage}
use cross_network_market_mak.Core.Primitives.{Primitives}
use cross_network_market_mak.Core.Settlement.{SwapState, validate_transition}
use cross_network_market_mak.Core.Storage.Tables.{Db, SwapRow, find, modify}
use cross_network_market_mak.Core.Storage.Tables.Laws.{find-modify}
use cross_network_market_mak.Core.Storage.Codec.{
  SwapRecord, Json, state_text, parse_state, parse_state-state_text,
}
use cross_network_market_mak.Core.Storage.Journal.Laws.{SameBut, append-SameBut}
use cross_network_market_mak.Core.Storage.Swaps.{
  has_state, move_row, deserialize_swap, get_swap, transition_body, transition_entry,
  transition_swap,
}

-- A row that was in the expected state is moved by an accepted transition, and no other table but
-- the journal changes.
pub record Moves (id : Text) (s t : SwapState) (h e : Option Text) (db db' : Db) : Type 0 where
  pub row : SwapRow
  pub row_found : find id db.swaps ≡ some row
  pub was_expected : has_state s row ≡ true
  pub row_moved : db'.swaps ≡ modify id (move_row s t h e) db.swaps
  pub reservations_same : db'.reservations ≡ db.reservations
  pub ledgers_same : db'.solver_ledgers ≡ db.solver_ledgers
  pub outbox_same : db'.funding_outbox ≡ db.funding_outbox

found_record :
    (found : CoreResult (Option SwapRecord)) (r : SwapRecord)
    → (do o ← found; ok_or o (storage "swap disappeared after transition")) ≡ ok r
    → found ≡ ok (some r)
found_record (ok none) r e = cc
found_record (ok (some r')) r e = ground arith
found_record (err x) r e = cc

module _ (p : Primitives) (j : Json) where
  pub transition_body-Moves :
      (id : Text) (s t : SwapState) (h e : Option Text) (db db' : Db)
      → transition_body p j id s t h e db ≡ ok db'
      → Moves id s t h e db db'
  unfolding transition_body
  transition_body-Moves id s t h e db db' eq = elim (Option-cases (find id db.swaps)) [
    | inl missing ↦ ground arith
    | inr (r, found) ↦
        let moved : Db = record db { swaps = modify id (move_row s t h e) db.swaps } in
        let same : SameBut moved db' =
          append-SameBut (transition_entry p j id r.state t h) moved db' (ground arith) in
        record {
          row = r;
          row_found = found;
          was_expected = ground arith;
          row_moved = same.swaps;
          reservations_same = same.reservations;
          ledgers_same = same.solver_ledgers;
          outbox_same = same.funding_outbox;
        }
  ]

  -- A transition call either leaves the database as it was, or is an accepted transition that moves
  -- the row from the expected state.
  pub transition_swap_cases :
      (id : Text) (s t : SwapState) (h e : Option Text) (db : Db)
      → ((transition_swap p j id s t h e db).1 ≡ db)
        ⊎ ((validate_transition s t ≡ ok tt)
            × Moves id s t h e db (transition_swap p j id s t h e db).1)
  unfolding transition_swap
  transition_swap_cases id s t h e db = elim (Result-cases (validate_transition s t)) [
    | inr (x, bad) ↦ inl (rw bad refl)
    | inl (u, good) ↦ elim (Result-cases (transition_body p j id s t h e db)) [
      | inr (x, failed) ↦ inl (rw (good, failed) refl)
      | inl (db', done) ↦ inr (
        good,
        subst (λ x. Moves id s t h e db x) (rw (good, done) refl)
            (transition_body-Moves id s t h e db db' done),
      )
    ]
  ]

  pub get_swap-state :
      (id : Text) (db : Db) (row : SwapRow) (r : SwapRecord)
      → find id db.swaps ≡ some row
      → get_swap p j id db ≡ ok (some r)
      → (parse_state row.state ≡ ok r.state) × (r.swap_id ≡ id)
  unfolding get_swap deserialize_swap
  get_swap-state id db row r found got = elim (Result-cases (parse_state row.state)) [
    | inl (s, e) ↦ ground arith
    | inr (x, e) ↦ ground arith
  ]

  moved_state :
      (id : Text) (s t : SwapState) (h e : Option Text) (db db' : Db)
      → Moves id s t h e db db'
      → (row : SwapRow) × (find id db'.swaps ≡ some row) × (row.state ≡ state_text t)
  moved_state id s t h e db db' m = (
    move_row s t h e m.row,
    rw (m.row_moved, find-modify, text_eq_refl id, m.row_found) refl,
    ground (arith, m.was_expected),
  )

  read_back_state :
      (id : Text) (s t : SwapState) (h e : Option Text) (db db' : Db) (r : SwapRecord)
      → Moves id s t h e db db'
      → get_swap p j id db' ≡ ok (some r)
      → (r.state ≡ t) × (r.swap_id ≡ id)
  read_back_state id s t h e db db' r m got =
      let (row, found, moved) = moved_state id s t h e db db' m in
      ground (arith, get_swap-state id db' row r found got, parse_state-state_text t)

  -- A call that succeeds has made an accepted transition of a row that was in the expected state,
  -- and returns the swap in the next state.
  pub transition_swap_result :
      (id : Text) (s t : SwapState) (h e : Option Text) (db : Db) (r : SwapRecord)
      → (transition_swap p j id s t h e db).0 ≡ ok r
      → (validate_transition s t ≡ ok tt)
        × Moves id s t h e db (transition_swap p j id s t h e db).1
        × (r.state ≡ t)
        × (r.swap_id ≡ id)
  unfolding transition_swap
  transition_swap_result id s t h e db r eq = elim (Result-cases (validate_transition s t)) [
    | inr (x, bad) ↦ cc (rw bad at eq)
    | inl (u, good) ↦ elim (Result-cases (transition_body p j id s t h e db)) [
      | inr (x, failed) ↦ cc (rw (good, failed) at eq)
      | inl (db', done) ↦
          let m : Moves id s t h e db db' = transition_body-Moves id s t h e db db' done in
          let got : get_swap p j id db' ≡ ok (some r) =
            found_record (get_swap p j id db') r (rw (good, done) at eq) in
          let back = read_back_state id s t h e db db' r m got in
          (good, rw (good, done) m, back.0, back.1)
    ]
  ]
