-- ===== src/Core/Storage/Reservations/Once.antt =====
-- A reservation is closed once, and attached to one swap.
use cross_network_market_mak.Prelude.{
  ℕ, ◌≡◌, ◌≢◌, refl, true, false, Option, none, some, ok, err, arith, Option-cases, not, ◌||◌, leb,
  Bool-cases, inl, inr,
}
use cross_network_market_mak.Prelude.Text.{
  Text, text_eq, text_eq-true, text_eq_iff, text_eq_refl, option_eq_iff,
}
use cross_network_market_mak.Core.Error.{CoreResult, storage}
use cross_network_market_mak.Core.Storage.Tables.{Db, ReservationRow, find, modify}
use cross_network_market_mak.Core.Storage.Tables.Laws.{find-modify}
use cross_network_market_mak.Core.Storage.Codec.{
  ReservationState, held, consumed, released, reservation_state_text,
}
use cross_network_market_mak.Core.Storage.Journal.{commit}
use cross_network_market_mak.Core.Storage.Reservations.{
  is_held, close_if_held, consume_body, consume_held, consume_reservation, release_body,
  release_held, release_reservation, attach_reservation,
}
use cross_network_market_mak.Core.Storage.Reservations.Steps.{
  consume_body_cases, release_body_cases,
}

-- The state of a row that was held and is closed.
pub closed_state :
    (id : Text) (s : ReservationState) (row : ReservationRow) (db db' : Db)
    → find id db.reservations ≡ some row
    → is_held row ≡ true
    → db'.reservations ≡ modify id (close_if_held s) db.reservations
    → (r : ReservationRow) × (find id db'.reservations ≡ some r)
      × (r.state ≡ reservation_state_text s)
closed_state id s row db db' found was closed =
    (close_if_held s row, rw (closed, find-modify, text_eq_refl id, found) refl, rw was refl)

-- The state that a call which succeeds leaves behind.
consumed_after :
    (id : Text) (x : Option Text) (db db' : Db)
    → consume_body id x db ≡ ok db'
    → (r : ReservationRow) × (find id db'.reservations ≡ some r)
      × (r.state ≡ reservation_state_text consumed)
consumed_after id x db db' e =
    let (row, found, how) = consume_body_cases id x db db' e in
    elim how [
      | inl (same, state) ↦ (row, rw same found, state)
      | inr c ↦ closed_state id consumed row db db' found c.was_held c.row_closed
    ]

released_after :
    (id : Text) (now : ℕ) (db db' : Db)
    → release_body id now db ≡ ok db'
    → (r : ReservationRow) × (find id db'.reservations ≡ some r)
      × (r.state ≡ reservation_state_text released)
released_after id now db db' e =
    let (row, found, how) = release_body_cases id now db db' e in
    elim how [
      | inl (same, state) ↦ (row, rw same found, state)
      | inr c ↦ closed_state id released row db db' found c.was_held c.row_closed
    ]

different_states :
    (text_eq (reservation_state_text consumed) (reservation_state_text held) ≡ false)
    × (text_eq (reservation_state_text consumed) (reservation_state_text released) ≡ false)
    × (text_eq (reservation_state_text released) (reservation_state_text held) ≡ false)
    × (text_eq (reservation_state_text released) (reservation_state_text consumed) ≡ false)
unfolding reservation_state_text text_eq
different_states = (refl, refl, refl, refl)

pub consume_when_consumed :
    (id : Text) (now : ℕ) (db : Db) (r : ReservationRow)
    → find id db.reservations ≡ some r
    → r.state ≡ reservation_state_text consumed
    → (consume_reservation id db ≡ (ok tt, db))
      × (release_reservation id now db ≡ (err (storage "consumed reservation cannot release"), db))
unfolding consume_reservation consume_body release_reservation release_body release_held
consume_when_consumed id now db r found state =
    (ground (arith, text_eq_refl r.state), ground (arith, different_states))

release_when_released :
    (id : Text) (now : ℕ) (db : Db) (r : ReservationRow)
    → find id db.reservations ≡ some r
    → r.state ≡ reservation_state_text released
    → (release_reservation id now db ≡ (ok tt, db))
      × (consume_reservation id db ≡ (err (storage "reservation is not held"), db))
unfolding consume_reservation consume_body consume_held release_reservation release_body
release_when_released id now db r found state =
    (ground (arith, text_eq_refl r.state), ground (arith, different_states))

pub commit_ok : (m : CoreResult Db) (db db' : Db) → commit tt m db ≡ (ok tt, db') → m ≡ ok db'
commit_ok (ok d) db db' e = ground arith
commit_ok (err x) db db' e = ground arith

-- Once consumed, a reservation can be consumed again with no effect, and can no longer be released;
-- the refused release changes nothing.
pub consume_once :
    (id : Text) (now : ℕ) (db db' : Db)
    → consume_reservation id db ≡ (ok tt, db')
    → (consume_reservation id db' ≡ (ok tt, db'))
      × (release_reservation id now db'
          ≡ (err (storage "consumed reservation cannot release"), db'))
consume_once id now db db' e =
    let (r, found, state) =
      consumed_after id none db db'
        (commit_ok (consume_body id none db) db db' (unfold consume_reservation in e)) in
    consume_when_consumed id now db' r found state

-- Once released, a reservation can be released again with no effect at any time, and can no longer
-- be consumed; the refused consumption changes nothing.
pub release_once :
    (id : Text) (now later : ℕ) (db db' : Db)
    → release_reservation id now db ≡ (ok tt, db')
    → (release_reservation id later db' ≡ (ok tt, db'))
      × (consume_reservation id db' ≡ (err (storage "reservation is not held"), db'))
release_once id now later db db' e =
    let (r, found, state) =
      released_after id now db db'
        (commit_ok (release_body id now db) db db' (unfold release_reservation in e)) in
    release_when_released id later db' r found state

-- The swap that a row holds after a call that attaches it.
attached_row :
    (id k : Text) (now : ℕ) (db db' : Db)
    → attach_reservation id k now db ≡ (ok tt, db')
    → (r : ReservationRow) × (find id db'.reservations ≡ some r) × (r.swap_id ≡ some k)
unfolding attach_reservation
attached_row id k now db db' e = elim (Option-cases (find id db.reservations)) [
  | inl missing ↦ absurd (ground arith)
  | inr (row, found) ↦ elim (Option-cases row.swap_id) [
    | inl free ↦ elim (Bool-cases (not (is_held row) || leb row.expires_at now)) [
      | inr fine ↦
          let written : db'.reservations
              ≡ modify id (λ r. record r { swap_id = some k }) db.reservations =
            ground (arith, fine, option_eq_iff row.swap_id (some k)) in
          (
            record row { swap_id = some k },
            rw (written, find-modify, text_eq_refl id, found) refl,
            refl,
          )
      | inl bad ↦ absurd (ground (arith, bad, option_eq_iff row.swap_id (some k)))
    ]
    | inr (other, taken) ↦ elim (Bool-cases (text_eq other k)) [
      | inr differs ↦
          absurd (ground (arith, differs, text_eq_iff other k, option_eq_iff row.swap_id (some k)))
      | inl same_swap ↦
          let same : db' ≡ db =
            ground (arith, text_eq_iff other k, option_eq_iff row.swap_id (some k)) in
          (row, rw same found, rw (taken, text_eq-true other k same_swap) refl)
    ]
  ]
]

attach_when_attached :
    (id k k' : Text) (later : ℕ) (db : Db) (r : ReservationRow)
    → find id db.reservations ≡ some r
    → r.swap_id ≡ some k
    → k ≢ k'
    → (attach_reservation id k later db ≡ (ok tt, db))
      × ((attach_reservation id k' later db).1 ≡ db)
      × ((attach_reservation id k' later db).0 ≢ ok tt)
unfolding attach_reservation
attach_when_attached id k k' later db r found on ne = (
  ground (arith, option_eq_iff r.swap_id (some k)),
  ground (arith, option_eq_iff r.swap_id (some k')),
  ground (arith, option_eq_iff r.swap_id (some k')),
)

-- Once attached to a swap, a reservation can be attached to it again with no effect, and to no
-- other swap.
pub attach_once :
    (id k k' : Text) (now later : ℕ) (db db' : Db)
    → attach_reservation id k now db ≡ (ok tt, db')
    → k ≢ k'
    → (attach_reservation id k later db' ≡ (ok tt, db'))
      × ((attach_reservation id k' later db').1 ≡ db')
      × ((attach_reservation id k' later db').0 ≢ ok tt)
attach_once id k k' now later db db' e ne =
    let (r, found, on) = attached_row id k now db db' e in
    attach_when_attached id k k' later db' r found on ne
