-- ===== src/Core/Storage/Swaps.antt =====
-- The swaps: inserted once, moved along the accepted transitions, with evidence written once.
pub mod Replay
pub mod Transitions
use cross_network_market_mak.Prelude.{
  ℕ, String, Bool, true, false, not, ◌||◌, ◌++◌, ◌∷◌, Option, none, some, ok, err, ok_or, reject_if,
  if◌then◌else◌,
}
use cross_network_market_mak.Prelude.Outcome.{◌>>=◌, ◌>>◌}
use cross_network_market_mak.Prelude.Text.{Text, text_eq, codes}
use cross_network_market_mak.Core.Error.{
  CoreError, CoreResult, storage, serialization, invalid_state,
}
use cross_network_market_mak.Core.Primitives.{Primitives}
use cross_network_market_mak.Core.Settlement.{SwapState, validate_transition}
use cross_network_market_mak.Core.Storage.Tables.{Db, SwapRow, find, modify, insert}
use cross_network_market_mak.Core.Storage.Codec.{
  SwapRecord, Json, state_text, parse_state, debug_text, digest_text,
}
use cross_network_market_mak.Core.Storage.Journal.{JournalEntry, append_journal_transaction, commit}

-- COALESCE(value, column)
abbrev pub coalesce : Option Text → Option Text → Option Text
coalesce none column = column
coalesce (some v) column = some v

-- `existing.is_some_and(|v| v != value)`
abbrev pub contradicts : Option Text → Text → Bool
contradicts none value = false
contradicts (some v) value = not (text_eq v value)

abbrev pub has_state : SwapState → SwapRow → Bool
has_state s row = text_eq row.state (state_text s)

-- UPDATE swaps SET state = ... WHERE ... AND state = ?5
abbrev pub move_row : SwapState → SwapState → Option Text → Option Text → SwapRow → SwapRow
move_row expected next payment_hash evidence row =
    if has_state expected row
    then record row {
      state = state_text next;
      payment_hash = coalesce payment_hash row.payment_hash;
      payment_evidence_json = coalesce evidence row.payment_evidence_json;
    }
    else row

abbrev pub fill_row : Text → Text → Text → Text → SwapRow → SwapRow
fill_row funding_txid claim_txid payment_hash evidence row = record row {
  funding_txid = some funding_txid;
  claim_txid = some claim_txid;
  payment_hash = some payment_hash;
  payment_evidence_json = some evidence;
}

module _ (p : Primitives) (j : Json) where
  -- `format!("{}:{intent_json}:{quote_json}", record.swap_id)`
  unfoldable pub insert_digest : SwapRecord → Text
  insert_digest r =
      digest_text p
        (r.swap_id ++ b':' ∷ (j.intent_to_json r.intent ++ b':' ∷ j.quote_to_json r.quote))

  abbrev pub to_row : SwapRecord → ℕ → SwapRow
  to_row r created_at = record {
    intent_json = j.intent_to_json r.intent;
    quote_json = j.quote_to_json r.quote;
    state = state_text r.state;
    funding_txid = r.funding_txid;
    claim_txid = r.claim_txid;
    payment_hash = r.payment_hash;
    payment_evidence_json = r.payment_evidence_json;
    request_digest = insert_digest r;
    created_at = created_at;
  }

  insert_if_new : Option SwapRow → SwapRecord → ℕ → Db → CoreResult Db
  insert_if_new (some row) r created_at db = do
    reject_if (not (text_eq row.request_digest (insert_digest r)))
        (storage "swap replay payload does not match the original digest")
    ok db
  insert_if_new none r created_at db =
      ok (record db { swaps = insert r.swap_id (to_row r created_at) db.swaps })

  unfoldable pub insert_body : SwapRecord → ℕ → Db → CoreResult Db
  unfolding insert_if_new
  insert_body r created_at db = insert_if_new (find r.swap_id db.swaps) r created_at db

  -- `created_at` is the time that SQLite reads.
  unfoldable pub insert_swap : SwapRecord → ℕ → Db → CoreResult (Unit {0}) × Db
  insert_swap r created_at db = commit tt (insert_body r created_at db) db

  unfoldable pub deserialize_swap : Text → SwapRow → CoreResult SwapRecord
  deserialize_swap swap_id row = do
    intent ← ok_or (j.intent_from_json row.intent_json) (serialization "{error}")
    quote ← ok_or (j.quote_from_json row.quote_json) (serialization "{error}")
    state ← parse_state row.state
    ok (record {
      swap_id = swap_id;
      intent = intent;
      quote = quote;
      state = state;
      funding_txid = row.funding_txid;
      claim_txid = row.claim_txid;
      payment_hash = row.payment_hash;
      payment_evidence_json = row.payment_evidence_json;
    })

  read_row : Text → Option SwapRow → CoreResult (Option SwapRecord)
  read_row swap_id none = ok none
  read_row swap_id (some row) = do r ← deserialize_swap swap_id row; ok (some r)

  unfoldable pub get_swap : Text → Db → CoreResult (Option SwapRecord)
  unfolding read_row
  get_swap swap_id db = read_row swap_id (find swap_id db.swaps)

  -- After the commit the row is read back; that may fail, and the write stays.
  abbrev read_back : String → Text → CoreResult (Unit {0}) × Db → CoreResult SwapRecord × Db
  read_back gone swap_id (ok _, db) =
      (do found ← get_swap swap_id db; ok_or found (storage gone), db)
  read_back gone swap_id (err e, db) = (err e, db)

  transition_entry : Text → Text → SwapState → Option Text → JournalEntry
  transition_entry swap_id current next payment_hash = record {
    operation_key =
        codes "swap-transition:" ++ (swap_id ++ b':' ∷ (current ++ codes "->" ++ debug_text next));
    entity_id = swap_id;
    request_digest = digest_text p (swap_id ++ b':' ∷ (current ++ b':' ∷ debug_text next));
    payload_json = j.transition_json current (state_text next) payment_hash;
  }

  unfoldable pub transition_body :
      Text → SwapState → SwapState → Option Text → Option Text → Db → CoreResult Db
  unfolding transition_entry
  transition_body swap_id expected next payment_hash evidence db = do
    row ← ok_or (find swap_id db.swaps) (storage "swap does not exist")
    reject_if (not (has_state expected row))
        (invalid_state "expected {expected:?}, found {current}")
    append_journal_transaction (transition_entry swap_id row.state next payment_hash) (record db {
      swaps = modify swap_id (move_row expected next payment_hash evidence) db.swaps;
    })

  transition_checked :
      CoreResult (Unit {0})
      → Text
      → SwapState
      → SwapState
      → Option Text
      → Option Text
      → Db
      → CoreResult (Unit {0}) × Db
  transition_checked (err e) swap_id expected next payment_hash evidence db = (err e, db)
  transition_checked (ok _) swap_id expected next payment_hash evidence db =
      commit tt (transition_body swap_id expected next payment_hash evidence db) db

  unfoldable pub transition_swap :
      Text → SwapState → SwapState → Option Text → Option Text → Db → CoreResult SwapRecord × Db
  unfolding transition_checked
  transition_swap swap_id expected next payment_hash evidence db =
      read_back "swap disappeared after transition" swap_id (
        transition_checked (validate_transition expected next) swap_id expected next payment_hash
          evidence db)

  evidence_entry : Text → Text → Text → Text → Text → JournalEntry
  evidence_entry swap_id funding_txid claim_txid payment_hash evidence = record {
    operation_key = codes "swap-evidence:" ++ swap_id;
    entity_id = swap_id;
    request_digest = digest_text p (
        swap_id
        ++ b':'
          ∷ (funding_txid ++ b':' ∷ (claim_txid ++ b':' ∷ (payment_hash ++ b':' ∷ evidence))));
    payload_json = j.evidence_json funding_txid claim_txid payment_hash evidence;
  }

  unfoldable pub evidence_body : Text → Text → Text → Text → Text → Db → CoreResult Db
  unfolding evidence_entry
  evidence_body swap_id funding_txid claim_txid payment_hash evidence db = do
    row ← ok_or (find swap_id db.swaps) (storage "swap does not exist")
    reject_if
        (contradicts row.funding_txid funding_txid
          || contradicts row.claim_txid claim_txid
          || contradicts row.payment_hash payment_hash
          || contradicts row.payment_evidence_json evidence)
        (storage "swap evidence is immutable and does not match")
    append_journal_transaction
        (evidence_entry swap_id funding_txid claim_txid payment_hash evidence)
        (record db {
          swaps = modify swap_id (fill_row funding_txid claim_txid payment_hash evidence) db.swaps;
        })

  unfoldable pub record_swap_evidence :
      Text → Text → Text → Text → Text → Db → CoreResult SwapRecord × Db
  record_swap_evidence swap_id funding_txid claim_txid payment_hash evidence db =
      read_back "swap disappeared after evidence" swap_id
        (commit tt (evidence_body swap_id funding_txid claim_txid payment_hash evidence db) db)
