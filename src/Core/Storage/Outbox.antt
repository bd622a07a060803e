-- ===== src/Core/Storage/Outbox.antt =====
-- `save_outbox` and `get_outbox`: the funding transaction of each swap, the latest one kept.
use cross_network_market_mak.Prelude.{Option, none, some, ok}
use cross_network_market_mak.Prelude.Text.{Text}
use cross_network_market_mak.Core.Error.{CoreResult}
use cross_network_market_mak.Core.Storage.Tables.{Db, Table, OutboxRow, find, modify, insert}

pub record FundingOutbox : Type 0 where
  pub swap_id : Text
  pub deterministic_txid : Text
  pub request_json : Text
  pub status : Text

abbrev to_row : FundingOutbox → OutboxRow
to_row o = record {
  deterministic_txid = o.deterministic_txid;
  request_json = o.request_json;
  status = o.status;
}

-- INSERT ... ON CONFLICT(swap_id) DO UPDATE.
upsert : Option OutboxRow → Text → OutboxRow → Table OutboxRow → Table OutboxRow
upsert none k row t = insert k row t
upsert (some _) k row t = modify k (λ _. row) t

unfoldable pub save_outbox : FundingOutbox → Db → CoreResult (Unit {0}) × Db
unfolding upsert
save_outbox o db = (
  ok tt,
  record db {
    funding_outbox =
        upsert (find o.swap_id db.funding_outbox) o.swap_id (to_row o) db.funding_outbox;
  },
)

of_row : Text → Option OutboxRow → Option FundingOutbox
of_row swap_id none = none
of_row swap_id (some row) = some (record {
  swap_id = swap_id;
  deterministic_txid = row.deterministic_txid;
  request_json = row.request_json;
  status = row.status;
})

unfoldable pub get_outbox : Text → Db → CoreResult (Option FundingOutbox)
unfolding of_row
get_outbox swap_id db = ok (of_row swap_id (find swap_id db.funding_outbox))
