-- ===== src/Core/Storage/Swaps/Replay.antt =====
-- Inserting a swap again, and evidence that is written once.
use cross_network_market_mak.Prelude.{
  if◌then◌else◌, ◌≡◌, ◌⊎◌, refl, false, none, some, ok, err, arith, Option-cases, Bool-cases,
  Result-cases, inl, inr, ℕ,
}
use cross_network_market_mak.Prelude.Text.{Text, text_eq, text_eq-true}
use cross_network_market_mak.Core.Error.{storage}
use cross_network_market_mak.Core.Primitives.{Primitives}
use cross_network_market_mak.Core.Storage.Tables.{Db, SwapRow, find, modify, insert}
use cross_network_market_mak.Core.Storage.Tables.Laws.{find-insert_same}
use cross_network_market_mak.Core.Storage.Codec.{SwapRecord, Json, parse_state-state_text}
use cross_network_market_mak.Core.Storage.Journal.Laws.{SameBut, append-SameBut}
use cross_network_market_mak.Core.Storage.Swaps.{
  contradicts, fill_row, insert_digest, insert_body, insert_swap, evidence_entry, evidence_body,
  record_swap_evidence, get_swap, deserialize_swap, to_row,
}

-- Evidence was absent or the same, and is now present.
pub record Records (id f c h e : Text) (db db' : Db) : Type 0 where
  pub row : SwapRow
  pub row_found : find id db.swaps ≡ some row
  pub agrees :
      (contradicts row.funding_txid f ≡ false)
      × (contradicts row.claim_txid c ≡ false)
      × (contradicts row.payment_hash h ≡ false)
      × (contradicts row.payment_evidence_json e ≡ false)
  pub row_filled : db'.swaps ≡ modify id (fill_row f c h e) db.swaps
  pub reservations_same : db'.reservations ≡ db.reservations
  pub ledgers_same : db'.solver_ledgers ≡ db.solver_ledgers

module _ (p : Primitives) (j : Json) where
  evidence_body-Records :
      (id f c h e : Text) (db db' : Db)
      → evidence_body p j id f c h e db ≡ ok db'
      → Records id f c h e db db'
  unfolding evidence_body
  evidence_body-Records id f c h e db db' eq = elim (Option-cases (find id db.swaps)) [
    | inl missing ↦ ground arith
    | inr (r, found) ↦
        let filled : Db = record db { swaps = modify id (fill_row f c h e) db.swaps } in
        let same : SameBut filled db' =
          append-SameBut (evidence_entry p j id f c h e) filled db' (ground arith) in
        record {
          row = r;
          row_found = found;
          agrees = ground arith;
          row_filled = same.swaps;
          reservations_same = same.reservations;
          ledgers_same = same.solver_ledgers;
        }
  ]

  -- Recording evidence either leaves the database as it was, or fills in a row whose evidence was
  -- absent or the same.
  pub record_swap_evidence_cases :
      (id f c h e : Text) (db : Db)
      → ((record_swap_evidence p j id f c h e db).1 ≡ db)
        ⊎ Records id f c h e db (record_swap_evidence p j id f c h e db).1
  unfolding record_swap_evidence
  record_swap_evidence_cases id f c h e db = elim (Result-cases (evidence_body p j id f c h e db)) [
    | inr (x, failed) ↦ inl (rw failed refl)
    | inl (db', done) ↦ inr (rw done (evidence_body-Records id f c h e db db' done))
  ]

  inserted : SwapRecord → ℕ → Db → Db
  inserted r now db = record db { swaps = insert r.swap_id (to_row p j r now) db.swaps }

  insert_new :
      (r : SwapRecord) (now : ℕ) (db : Db)
      → find r.swap_id db.swaps ≡ none
      → insert_swap p j r now db ≡ (ok tt, inserted r now db)
  unfolding insert_swap insert_body inserted
  insert_new r now db new = rw new refl

  find-inserted :
      (r : SwapRecord) (now : ℕ) (db : Db)
      → find r.swap_id (inserted r now db).swaps ≡ some (to_row p j r now)
  unfolding inserted
  find-inserted r now db = find-insert_same r.swap_id (to_row p j r now) db.swaps

  -- The row of a swap after a call that inserts it.
  inserted_row :
      (r : SwapRecord) (now : ℕ) (db db' : Db)
      → insert_swap p j r now db ≡ (ok tt, db')
      → (row : SwapRow) × (find r.swap_id db'.swaps ≡ some row)
        × (row.request_digest ≡ insert_digest p j r)
  unfolding insert_swap insert_body
  inserted_row r now db db' e = elim (Option-cases (find r.swap_id db.swaps)) [
    | inl missing ↦
        let written : db' ≡ inserted r now db = ground (arith, insert_new r now db missing) in
        (to_row p j r now, rw written (find-inserted r now db), refl)
    | inr (row, found) ↦ elim (Bool-cases (text_eq row.request_digest (insert_digest p j r))) [
      | inl agrees ↦
          (row, ground arith, text_eq-true row.request_digest (insert_digest p j r) agrees)
      | inr differs ↦ absurd (ground arith)
    ]
  ]

  insert_when_inserted :
      (r r' : SwapRecord) (later : ℕ) (db : Db) (row : SwapRow)
      → find r.swap_id db.swaps ≡ some row
      → row.request_digest ≡ insert_digest p j r
      → r'.swap_id ≡ r.swap_id
      → insert_swap p j r' later db ≡ (
          if text_eq (insert_digest p j r) (insert_digest p j r')
          then (ok tt, db)
          else (err (storage "swap replay payload does not match the original digest"), db))
  unfolding insert_swap insert_body
  insert_when_inserted r r' later db row found digest same =
      let found' : find r'.swap_id db.swaps ≡ some row = rw same found in ground (arith, found')

  -- A swap is inserted once: after a call that succeeds, a record with the same id and digest is
  -- accepted again with no effect, and one with another digest is refused with no effect.
  pub insert_once :
      (r r' : SwapRecord) (now later : ℕ) (db db' : Db)
      → insert_swap p j r now db ≡ (ok tt, db')
      → r'.swap_id ≡ r.swap_id
      → insert_swap p j r' later db' ≡ (
          if text_eq (insert_digest p j r) (insert_digest p j r')
          then (ok tt, db')
          else (err (storage "swap replay payload does not match the original digest"), db'))
  insert_once r r' now later db db' e same =
      let (row, found, digest) = inserted_row r now db db' e in
      insert_when_inserted r r' later db' row found digest same

  -- A swap of a new id that is inserted is read back as it was given, if its intent and its quote are
  -- read back from the JSON that they are written in.
  pub get_swap-insert_swap :
      (r : SwapRecord) (now : ℕ) (db : Db)
      → j.intent_from_json (j.intent_to_json r.intent) ≡ some r.intent
      → j.quote_from_json (j.quote_to_json r.quote) ≡ some r.quote
      → find r.swap_id db.swaps ≡ none
      → ((insert_swap p j r now db).0 ≡ ok tt)
        × (get_swap p j r.swap_id (insert_swap p j r now db).1 ≡ ok (some r))
  unfolding get_swap deserialize_swap
  get_swap-insert_swap r now db intent quote new = (
    rw (insert_new r now db new) refl,
    rw (insert_new r now db new, find-inserted r now db, intent, quote, parse_state-state_text)
        refl,
  )
