-- ===== src/Core/Storage/Reservations/Verified.antt =====
-- What a consumption by preimage does, and what it allows after it.
use cross_network_market_mak.Prelude.{◌≡◌, ◌≢◌, ◌⊎◌, ℕ, refl, some, ok, err, arith, inl, inr}
use cross_network_market_mak.Prelude.Text.{Text, text_eq_iff, text_eq_refl}
use cross_network_market_mak.Core.Error.{storage}
use cross_network_market_mak.Core.Primitives.{Primitives, Bytes}
use cross_network_market_mak.Core.Storage.Tables.{Db, ReservationRow, find}
use cross_network_market_mak.Core.Storage.Tables.Laws.{find-modify}
use cross_network_market_mak.Core.Storage.Codec.{consumed, reservation_state_text, digest_text}
use cross_network_market_mak.Core.Storage.Reservations.{
  close_if_held, consume_body, consume_reservation_verified, release_reservation,
}
use cross_network_market_mak.Core.Storage.Reservations.Closing.{Consumes}
use cross_network_market_mak.Core.Storage.Reservations.Steps.{consume_body_cases}
use cross_network_market_mak.Core.Storage.Reservations.Once.{commit_ok, consume_when_consumed}

-- A consumption that succeeds: the reservation committed to the digest, and was consumed already, or
-- was held and is closed with its amount moved.
pub record ConsumesFor (digest id : Text) (db db' : Db) : Type 0 where
  pub row : ReservationRow
  pub found : find id db.reservations ≡ some row
  pub commits : row.hash_commitment ≡ digest
  pub effect : ((db' ≡ db) × (row.state ≡ reservation_state_text consumed)) ⊎ Consumes id row db db'

consume_body-ConsumesFor :
    (digest id : Text) (db db' : Db)
    → consume_body id (some digest) db ≡ ok db'
    → ConsumesFor digest id db db'
unfolding consume_body
consume_body-ConsumesFor digest id db db' h =
    let (row, found, effect) = consume_body_cases id (some digest) db db' h in
    record {
      row = row;
      found = found;
      commits = ground (arith, found, text_eq_iff row.hash_commitment digest);
      effect = effect;
    }

-- The row that such a consumption leaves.
row_after :
    (digest id : Text) (db db' : Db)
    → ConsumesFor digest id db db'
    → (r : ReservationRow) × (find id db'.reservations ≡ some r)
      × (r.state ≡ reservation_state_text consumed)
      × (r.hash_commitment ≡ digest)
row_after digest id db db' k = elim k.effect [
  | inl (same, state) ↦ (k.row, rw same k.found, state, k.commits)
  | inr c ↦ (
    close_if_held consumed k.row,
    rw (c.row_closed, find-modify, text_eq_refl id, k.found) refl,
    rw (c.was_held) refl,
    rw (c.was_held) k.commits,
  )
]

verified_when_consumed :
    (p : Primitives) (id : Text) (preimage other : Bytes) (db : Db) (r : ReservationRow)
    → find id db.reservations ≡ some r
    → r.state ≡ reservation_state_text consumed
    → r.hash_commitment ≡ digest_text p preimage
    → digest_text p other ≢ digest_text p preimage
    → (consume_reservation_verified p id preimage db ≡ (ok tt, db))
      × (consume_reservation_verified p id other db
          ≡ (err (storage "preimage does not match the reservation commitment"), db))
unfolding consume_reservation_verified consume_body
verified_when_consumed p id preimage other db r found state commits ne = (
  ground (arith, text_eq_refl r.state, text_eq_iff r.hash_commitment (digest_text p preimage)),
  ground (arith, text_eq_iff r.hash_commitment (digest_text p other)),
)

-- A consumption by preimage that succeeds found a reservation that commits to the digest of the
-- preimage. Either it was consumed already and nothing changes, or it was held, is closed, and its
-- amount moves from available and reserved to consumed. After it the same preimage can be given again
-- with no effect; bytes of another digest are refused, and so is the release; neither changes anything.
pub consume_verified_once :
    (p : Primitives) (id : Text) (preimage other : Bytes) (now : ℕ) (db db' : Db)
    → consume_reservation_verified p id preimage db ≡ (ok tt, db')
    → digest_text p other ≢ digest_text p preimage
    → ConsumesFor (digest_text p preimage) id db db'
      × (consume_reservation_verified p id preimage db' ≡ (ok tt, db'))
      × (consume_reservation_verified p id other db'
          ≡ (err (storage "preimage does not match the reservation commitment"), db'))
      × (release_reservation id now db'
          ≡ (err (storage "consumed reservation cannot release"), db'))
consume_verified_once p id preimage other now db db' e ne =
    let k =
      consume_body-ConsumesFor (digest_text p preimage) id db db'
        (commit_ok _ db db' (unfold consume_reservation_verified in e)) in
    let (r, found, state, commits) = row_after (digest_text p preimage) id db db' k in
    let verified = verified_when_consumed p id preimage other db' r found state commits ne in
    (k, verified.0, verified.1, (consume_when_consumed id now db' r found state).1)
