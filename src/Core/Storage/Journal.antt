-- ===== src/Core/Storage/Journal.antt =====
-- The journal: one row for each operation key, written once.
pub mod Laws
use cross_network_market_mak.Prelude.{Bool, not, ◌||◌, Option, none, some, ok, err, if◌then◌else◌}
use cross_network_market_mak.Prelude.Text.{Text, text_eq}
use cross_network_market_mak.Core.Error.{CoreResult, storage}
use cross_network_market_mak.Core.Storage.Tables.{Db, JournalRow, find, insert}

-- A transaction that fails leaves the database as it was.
abbrev pub commit : {A : Type 0} → A → CoreResult Db → Db → CoreResult A × Db
commit a (ok db') db = (ok a, db')
commit a (err e) db = (err e, db)

pub record JournalEntry : Type 0 where
  pub operation_key : Text
  pub entity_id : Text
  pub request_digest : Text
  pub payload_json : Text

abbrev pub to_row : JournalEntry → JournalRow
to_row entry = record {
  entity_id = entry.entity_id;
  request_digest = entry.request_digest;
  payload_json = entry.payload_json;
}

abbrev differs : JournalRow → JournalEntry → Bool
differs row entry =
    not (text_eq row.entity_id entry.entity_id)
    || not (text_eq row.request_digest entry.request_digest)
    || not (text_eq row.payload_json entry.payload_json)

append_if_new : Option JournalRow → JournalEntry → Db → CoreResult Db
append_if_new (some row) entry db =
    if differs row entry
    then err (storage "journal operation key reused with different payload")
    else ok db
append_if_new none entry db =
    ok (record db { journal = insert entry.operation_key (to_row entry) db.journal })

unfoldable pub append_journal_transaction : JournalEntry → Db → CoreResult Db
unfolding append_if_new
append_journal_transaction entry db = append_if_new (find entry.operation_key db.journal) entry db

unfoldable pub append_journal : JournalEntry → Db → CoreResult (Unit {0}) × Db
append_journal entry db = commit tt (append_journal_transaction entry db) db
