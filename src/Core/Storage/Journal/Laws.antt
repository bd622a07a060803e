-- ===== src/Core/Storage/Journal/Laws.antt =====
-- What an append does to the journal, and that it does nothing else.
use cross_network_market_mak.Prelude.{◌≡◌, some, ok, arith, Option-cases, inl, inr}
use cross_network_market_mak.Prelude.Text.{Text, text_eq_iff, text_eq_refl}
use cross_network_market_mak.Core.Storage.Tables.{Db, JournalRow, find}
use cross_network_market_mak.Core.Storage.Journal.{JournalEntry, to_row, append_journal_transaction}

-- The tables that an append leaves alone.
pub record SameBut (db db' : Db) : Type 0 where
  pub swaps : db'.swaps ≡ db.swaps
  pub reservations : db'.reservations ≡ db.reservations
  pub solver_ledgers : db'.solver_ledgers ≡ db.solver_ledgers
  pub funding_outbox : db'.funding_outbox ≡ db.funding_outbox

pub append-SameBut :
    (entry : JournalEntry) (db db' : Db)
    → append_journal_transaction entry db ≡ ok db'
    → SameBut db db'
unfolding append_journal_transaction
append-SameBut entry db db' h = ground arith

append_at_key :
    (entry : JournalEntry) (db db' : Db)
    → append_journal_transaction entry db ≡ ok db'
    → find entry.operation_key db'.journal ≡ some (to_row entry)
unfolding append_journal_transaction find
append_at_key entry db db' h = elim (Option-cases (find entry.operation_key db.journal)) [
  | inl e ↦ ground (arith, text_eq_refl entry.operation_key)
  | inr (row, e) ↦ ground (
    arith,
    text_eq_iff row.entity_id entry.entity_id,
    text_eq_iff row.request_digest entry.request_digest,
    text_eq_iff row.payload_json entry.payload_json,
  )
]

append_keeps :
    (entry : JournalEntry) (db db' : Db) (k : Text) (row : JournalRow)
    → append_journal_transaction entry db ≡ ok db'
    → find k db.journal ≡ some row
    → find k db'.journal ≡ some row
unfolding append_journal_transaction find
append_keeps entry db db' k row h e = ground (arith, text_eq_iff entry.operation_key k)

-- After an append that succeeds the journal holds the entry under its key, and every row that was
-- there is there unchanged.
pub append_writes_once :
    (entry : JournalEntry) (db db' : Db) (k : Text) (row : JournalRow)
    → append_journal_transaction entry db ≡ ok db'
    → find k db.journal ≡ some row
    → (find k db'.journal ≡ some row) × (find entry.operation_key db'.journal ≡ some (to_row entry))
append_writes_once entry db db' k row h found =
    (append_keeps entry db db' k row h found, append_at_key entry db db' h)
