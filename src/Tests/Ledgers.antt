-- ===== src/Tests/Ledgers.antt =====
-- Ledgers and reservations.
use cross_network_market_mak.Prelude.{◌≡◌, ◌≢◌, refl, some, none, ok, err, [], ◌∷◌, List, arith}
use cross_network_market_mak.Prelude.Text.{Text, text_eq, option_eq, codes}
use cross_network_market_mak.Prelude.Decimal.{to_string, parse_u64}
use cross_network_market_mak.Core.Error.{storage}
use cross_network_market_mak.Core.Amount.{value}
use cross_network_market_mak.Core.Storage.Tables.{Db, ReservationRow, find, modify, some_row}
use cross_network_market_mak.Core.Storage.Codec.{
  Reservation, held, reservation_state_text, digest_text,
}
use cross_network_market_mak.Core.Storage.Journal.{JournalEntry, to_row, append_journal_transaction}
use cross_network_market_mak.Core.Storage.Reservations.{
  stored_amount, read_ledger, reserve_body, violates_unique, consume_body, consume_held,
  release_body, release_held, consume_reservation, consume_reservation_verified,
  release_reservation, attach_reservation,
}
use cross_network_market_mak.Core.Storage.Reservations.Balance.{IsSound, held_sum, worth}
use cross_network_market_mak.Core.Storage.Reservations.Effects.{Reserves, reserve-Reserves}
use cross_network_market_mak.Core.Storage.Reservations.Once.{
  consume_once, release_once, attach_once,
}
use cross_network_market_mak.Core.Storage.Reservations.Verified.{ConsumesFor, consume_verified_once}
use cross_network_market_mak.Core.Storage.History.{
  Operation, ensure_solver_ledger, reserve, AllProper, run,
}
use cross_network_market_mak.Core.Storage.History.Soundness.{run-IsSound}
use cross_network_market_mak.Core.Storage.History.Worth.{run-worth}
use cross_network_market_mak.Tests.{plain, json, empty_db}

abbrev r1 : Text
r1 = codes "r1"

abbrev reservation : Reservation
reservation = record {
  reservation_id = r1;
  solver_id = codes "solver";
  quote_id = codes "q1";
  swap_id = none;
  amount = record { text = codes "30" };
  hash_commitment = codes "h";
  state = held;
  expires_at = 500;
}

abbrev history : List Operation
history =
    ensure_solver_ledger (codes "solver") (codes "BTC") (record { text = codes "100" })
    ∷ reserve reservation (codes "BTC")
    ∷ Operation.consume_reservation r1
    ∷ Operation.release_reservation r1 900
    ∷ []

history-AllProper : AllProper history
unfolding parse_u64
history-AllProper = ((100, refl), (refl, (tt, (tt, tt))))

empty_db-IsSound : IsSound empty_db
unfolding find held_sum
empty_db-IsSound = record { at_solver = λ s. refl }

run-IsSound_example : IsSound (run plain json history empty_db)
run-IsSound_example = run-IsSound plain json history empty_db history-AllProper empty_db-IsSound

-- A ledger of 100, nothing of it reserved.
abbrev opened : Db
opened = record empty_db {
  solver_ledgers =
      (
        codes "solver",
        record {
          asset_id = codes "BTC";
          available_amount = codes "100";
          reserved_amount = codes "0";
          consumed_amount = codes "0";
        },
      )
      ∷ [];
}

worth-opened : worth (codes "solver") opened ≡ some 100
unfolding worth find text_eq parse_u64
worth-opened = refl

run-worth_example : worth (codes "solver") (run plain json history opened) ≡ some 100
run-worth_example = run-worth plain json history opened (codes "solver") 100 worth-opened

-- The ledger with 30 reserved by a held reservation.
abbrev held_db : Db
held_db = record empty_db {
  solver_ledgers =
      (
        codes "solver",
        record {
          asset_id = codes "BTC";
          available_amount = codes "100";
          reserved_amount = codes "30";
          consumed_amount = codes "0";
        },
      )
      ∷ [];
  reservations =
      (
        r1,
        record {
          solver_id = codes "solver";
          quote_id = codes "q1";
          swap_id = none;
          amount = codes "30";
          hash_commitment = codes "h";
          state = codes "HELD";
          expires_at = 500;
        },
      )
      ∷ [];
}

abbrev held_row : ReservationRow
held_row = record {
  solver_id = codes "solver";
  quote_id = codes "q1";
  swap_id = none;
  amount = codes "30";
  hash_commitment = codes "h";
  state = codes "HELD";
  expires_at = 500;
}

abbrev entry : JournalEntry
entry = record {
  operation_key = codes "reserve:r1";
  entity_id = r1;
  request_digest = r1;
  payload_json = r1;
}

abbrev reserved : Db
reserved = record held_db { journal = (codes "reserve:r1", to_row entry) ∷ [] }

reserves : reserve_body plain json reservation (codes "BTC") opened ≡ ok reserved
unfolding reserve_body read_ledger stored_amount value find modify text_eq parse_u64 to_string
    violates_unique some_row append_journal_transaction digest_text reservation_state_text
reserves = refl

reserve-Reserves_example : Reserves reservation (codes "BTC") opened reserved
reserve-Reserves_example =
    reserve-Reserves plain json reservation (codes "BTC") opened reserved reserves

abbrev after_consume : Db
after_consume = (consume_reservation r1 held_db).1

consumes : consume_reservation r1 held_db ≡ (ok tt, after_consume)
unfolding consume_reservation consume_body consume_held read_ledger stored_amount find modify
    text_eq parse_u64 to_string reservation_state_text
consumes = refl

consume_once_example :
    (consume_reservation r1 after_consume ≡ (ok tt, after_consume))
    × (release_reservation r1 900 after_consume
        ≡ (err (storage "consumed reservation cannot release"), after_consume))
consume_once_example = consume_once r1 900 held_db after_consume consumes

abbrev after_release : Db
after_release = (release_reservation r1 500 held_db).1

releases : release_reservation r1 500 held_db ≡ (ok tt, after_release)
unfolding release_reservation release_body release_held read_ledger stored_amount find modify
    text_eq parse_u64 to_string reservation_state_text
releases = refl

release_once_example :
    (release_reservation r1 600 after_release ≡ (ok tt, after_release))
    × (consume_reservation r1 after_release
        ≡ (err (storage "reservation is not held"), after_release))
release_once_example = release_once r1 500 600 held_db after_release releases

-- The digest is the preimage itself here, so that the commitment of the row opens it.
abbrev opening : Text
opening = held_row.hash_commitment

abbrev after_verified : Db
after_verified = (consume_reservation_verified plain r1 opening held_db).1

verifies : consume_reservation_verified plain r1 opening held_db ≡ (ok tt, after_verified)
unfolding consume_reservation_verified consume_body consume_held read_ledger stored_amount find
    modify text_eq parse_u64 to_string reservation_state_text digest_text
verifies = refl

wrong_preimage : digest_text plain (codes "x") ≢ digest_text plain opening
unfolding digest_text
wrong_preimage e = ground arith

consume_verified_once_example :
    ConsumesFor (digest_text plain opening) r1 held_db after_verified
    × (consume_reservation_verified plain r1 opening after_verified ≡ (ok tt, after_verified))
    × (consume_reservation_verified plain r1 (codes "x") after_verified
        ≡ (err (storage "preimage does not match the reservation commitment"), after_verified))
    × (release_reservation r1 900 after_verified
        ≡ (err (storage "consumed reservation cannot release"), after_verified))
consume_verified_once_example =
    consume_verified_once plain r1 opening (codes "x") 900 held_db after_verified verifies
      wrong_preimage

abbrev after_attach : Db
after_attach = (attach_reservation r1 (codes "s1") 100 held_db).1

attaches : attach_reservation r1 (codes "s1") 100 held_db ≡ (ok tt, after_attach)
unfolding attach_reservation find modify text_eq option_eq reservation_state_text
attaches = refl

another_swap : codes "s1" ≢ codes "s2"
another_swap e = ground arith

attach_once_example :
    (attach_reservation r1 (codes "s1") 900 after_attach ≡ (ok tt, after_attach))
    × ((attach_reservation r1 (codes "s2") 900 after_attach).1 ≡ after_attach)
    × ((attach_reservation r1 (codes "s2") 900 after_attach).0 ≢ ok tt)
attach_once_example =
    attach_once r1 (codes "s1") (codes "s2") 100 900 held_db after_attach attaches another_swap

abbrev second_entry : JournalEntry
second_entry = record {
  operation_key = codes "second";
  entity_id = codes "e";
  request_digest = codes "d";
  payload_json = codes "p";
}

abbrev twice : Db
twice = record reserved {
  journal = (codes "second", to_row second_entry) ∷ (codes "reserve:r1", to_row entry) ∷ [];
}

appends :
    (append_journal_transaction second_entry reserved ≡ ok twice)
    × (find (codes "reserve:r1") reserved.journal ≡ some (to_row entry))
unfolding append_journal_transaction find text_eq
appends = (refl, refl)
