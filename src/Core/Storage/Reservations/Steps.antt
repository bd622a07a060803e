-- ===== src/Core/Storage/Reservations/Steps.antt =====
-- Each call on reservations, as one of a few changes of the database.
use cross_network_market_mak.Prelude.{
  ℕ, ◌≡◌, ◌⊎◌, refl, sym, subst, Option, some, ok, err, arith, Option-cases, Bool-cases, inl, inr,
}
use cross_network_market_mak.Prelude.Text.{Text, text_eq, text_eq-true}
use cross_network_market_mak.Core.Error.{CoreResult}
use cross_network_market_mak.Core.Primitives.{Primitives}
use cross_network_market_mak.Core.Storage.Tables.{Db, ReservationRow, find, modify}
use cross_network_market_mak.Core.Storage.Codec.{
  Reservation, Json, consumed, released, reservation_state_text,
}
use cross_network_market_mak.Core.Storage.Journal.{commit}
use cross_network_market_mak.Core.Storage.Reservations.{
  reserve_body, reserve, consume_body, release_body, release_reservation, attach_reservation,
}
use cross_network_market_mak.Core.Storage.Reservations.Effects.{Reserves, reserve-Reserves}
use cross_network_market_mak.Core.Storage.Reservations.Closing.{
  Consumes, Releases, consume_held-Consumes, release_held-Releases,
}

-- A transaction ends where its body would end, or where it began.
pub commit_cases :
    {P : Db → Type 0} (m : CoreResult Db) (db : Db)
    → P db
    → ((db' : Db) → m ≡ ok db' → P db')
    → P (commit tt m db).1
commit_cases (ok db') db keep step = step db' refl
commit_cases (err e) db keep step = keep

pub reserve_cases :
    {P : Db → Type 0} (p : Primitives) (j : Json) (r : Reservation) (asset_id : Text) (db : Db)
    → P db
    → ((db' : Db) → Reserves r asset_id db db' → P db')
    → P (reserve p j r asset_id db).1
unfolding reserve
reserve_cases {P} p j r asset_id db keep step =
    commit_cases {P = P} (reserve_body p j r asset_id db) db keep
      λ db' e. step db' (reserve-Reserves p j r asset_id db db' e)

pub consume_body_cases :
    (id : Text) (expected : Option Text) (db db' : Db)
    → consume_body id expected db ≡ ok db'
    → (row : ReservationRow) × (find id db.reservations ≡ some row)
      × (((db' ≡ db) × (row.state ≡ reservation_state_text consumed)) ⊎ Consumes id row db db')
unfolding consume_body
consume_body_cases id expected db db' h = elim (Option-cases (find id db.reservations)) [
  | inl missing ↦ ground arith
  | inr (row, found) ↦ elim (Bool-cases (text_eq row.state (reservation_state_text consumed))) [
    | inl again ↦ (row, found, inl (ground arith, text_eq-true _ _ again))
    | inr fresh ↦ (row, found, inr (consume_held-Consumes id row db db' (ground arith)))
  ]
]

pub release_body_cases :
    (id : Text) (now : ℕ) (db db' : Db)
    → release_body id now db ≡ ok db'
    → (row : ReservationRow) × (find id db.reservations ≡ some row)
      × (((db' ≡ db) × (row.state ≡ reservation_state_text released)) ⊎ Releases id row now db db')
unfolding release_body
release_body_cases id now db db' h = elim (Option-cases (find id db.reservations)) [
  | inl missing ↦ ground arith
  | inr (row, found) ↦ elim (Bool-cases (text_eq row.state (reservation_state_text released))) [
    | inl again ↦ (row, found, inl (ground arith, text_eq-true _ _ again))
    | inr fresh ↦ (row, found, inr (release_held-Releases id row now db db' (ground arith)))
  ]
]

pub consume_cases :
    {P : Db → Type 0} (id : Text) (expected : Option Text) (db : Db)
    → P db
    → ((db' : Db) (row : ReservationRow)
        → find id db.reservations ≡ some row
        → Consumes id row db db'
        → P db')
    → P (commit tt (consume_body id expected db) db).1
consume_cases {P} id expected db keep step =
    commit_cases {P = P} (consume_body id expected db) db keep λ db' e.
      let (row, found, how) = consume_body_cases id expected db db' e in
      elim how [ inl (same, _) ↦ subst P (sym same) keep | inr c ↦ step db' row found c ]

pub release_cases :
    {P : Db → Type 0} (id : Text) (now : ℕ) (db : Db)
    → P db
    → ((db' : Db) (row : ReservationRow)
        → find id db.reservations ≡ some row
        → Releases id row now db db'
        → P db')
    → P (release_reservation id now db).1
unfolding release_reservation
release_cases {P} id now db keep step =
    commit_cases {P = P} (release_body id now db) db keep λ db' e.
      let (row, found, how) = release_body_cases id now db db' e in
      elim how [ inl (same, _) ↦ subst P (sym same) keep | inr c ↦ step db' row found c ]

-- Attaching changes at most the `swap_id` of one row.
abbrev pub attached : Text → ReservationRow → ReservationRow
attached swap_id row = record row { swap_id = some swap_id }

pub attach_cases :
    (id swap_id : Text) (now : ℕ) (db : Db)
    → ((attach_reservation id swap_id now db).1 ≡ db)
      ⊎ ((attach_reservation id swap_id now db).1
          ≡ record db { reservations = modify id (attached swap_id) db.reservations })
unfolding attach_reservation
attach_cases id swap_id now db = elim (Option-cases (find id db.reservations)) [
  | inl missing ↦ inl (ground arith)
  | inr (row, found) ↦ elim (Option-cases row.swap_id) [
    | inl free ↦ ground arith
    | inr (other, taken) ↦ inl (ground arith)
  ]
]
