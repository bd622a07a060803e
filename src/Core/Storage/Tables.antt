-- ===== src/Core/Storage/Tables.antt =====
-- The tables that `SqliteStore::open` declares, keyed by their primary keys, and the statements on
-- them. No query depends on the order of rows.
pub mod Laws
use cross_network_market_mak.Prelude.{
  ℕ, Bool, false, ◌||◌, List, [], ◌∷◌, Option, none, some, if◌then◌else◌,
}
use cross_network_market_mak.Prelude.Text.{Text, text_eq}

abbrev pub Table : Type 0 → Type 0
Table R = List (Text × R)

module _ {R : Type 0} where
  -- SELECT ... WHERE key = k
  unfoldable pub find : Text → Table R → Option R
  find k [] = none
  find k ((j, r) ∷ t) = if text_eq j k then some r else find k t

  -- UPDATE ... WHERE key = k. A primary key has at most one row.
  unfoldable pub modify : Text → (R → R) → Table R → Table R
  modify k f [] = []
  modify k f ((j, r) ∷ t) = if text_eq j k then (j, f r) ∷ t else (j, r) ∷ modify k f t

  -- INSERT of a row whose key is new.
  abbrev pub insert : Text → R → Table R → Table R
  insert k r t = (k, r) ∷ t

  -- Whether some row passes a test, as a UNIQUE constraint asks.
  unfoldable pub some_row : (R → Bool) → Table R → Bool
  some_row p [] = false
  some_row p ((j, r) ∷ t) = p r || some_row p t

pub record SwapRow : Type 0 where
  pub intent_json : Text
  pub quote_json : Text
  pub state : Text
  pub funding_txid : Option Text
  pub claim_txid : Option Text
  pub payment_hash : Option Text
  pub payment_evidence_json : Option Text
  pub request_digest : Text
  pub created_at : ℕ

-- `expires_at` is an INTEGER that is written from a `u64` below 2^63.
pub record ReservationRow : Type 0 where
  pub solver_id : Text
  pub quote_id : Text
  pub swap_id : Option Text
  pub amount : Text
  pub hash_commitment : Text
  pub state : Text
  pub expires_at : ℕ

pub record LedgerRow : Type 0 where
  pub asset_id : Text
  pub available_amount : Text
  pub reserved_amount : Text
  pub consumed_amount : Text

pub record JournalRow : Type 0 where
  pub entity_id : Text
  pub request_digest : Text
  pub payload_json : Text

pub record OutboxRow : Type 0 where
  pub deterministic_txid : Text
  pub request_json : Text
  pub status : Text

pub record Db : Type 0 where
  pub swaps : Table SwapRow
  pub reservations : Table ReservationRow
  pub solver_ledgers : Table LedgerRow
  pub journal : Table JournalRow
  pub funding_outbox : Table OutboxRow
