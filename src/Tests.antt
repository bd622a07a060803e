-- ===== src/Tests.antt =====
-- Examples: small inputs on which the code runs, and the theorems at those inputs. Texts stand for
-- their own hashes and encodings.
mod Values
mod Ledgers
mod SwapRows
mod Quotes
mod Exits
mod Runs
mod Refunds
mod Encoding
mod Contracts
mod Nodes
mod Assets
mod Recoveries
use cross_network_market_mak.Prelude.{[], some, none}
use cross_network_market_mak.Prelude.Text.{Text, codes}
use cross_network_market_mak.Core.Primitives.{Primitives}
use cross_network_market_mak.Core.Network.{lightning_regtest, liquid_regtest}
use cross_network_market_mak.Core.Settlement.{created}
use cross_network_market_mak.Core.Endpoint.{EndpointId}
use cross_network_market_mak.Core.Rfq.{DeadlineContext, Intent, Quote, SignedQuote}
use cross_network_market_mak.Core.Storage.Tables.{Db}
use cross_network_market_mak.Core.Storage.Codec.{SwapRecord, Json}

abbrev plain : Primitives
plain = record { hex_decode = λ t. some t; hex_encode = λ b. b; sha256 = λ b. b }

abbrev depix : EndpointId
depix = record {
  asset_id = codes "TEST-DEPIX";
  network = liquid_regtest;
  asset_hash = some (codes "0123456789abcdef0123456789abcdef0123456789abcdef0123456789abcdef");
}

abbrev lightning : EndpointId
lightning = record { asset_id = codes "BTC"; network = lightning_regtest; asset_hash = none }

abbrev deadlines : DeadlineContext
deadlines = record {
  source_height = 100;
  destination_height = 100;
  source_refund_height = 1100;
  destination_refund_height = 180;
  lightning_expiry_height = some 180;
  source_refund_at = 70000;
  destination_refund_at = 50000;
  lightning_expiry_at = some 50000;
  margin_seconds = 7200;
}

abbrev intent : Intent
intent = record {
  version = 1;
  intent_id = codes "i1";
  source = depix;
  destination = lightning;
  amount_in = record { text = codes "100" };
  min_amount_out = record { text = codes "90" };
  fee_limit_lbtc = record { text = codes "5" };
  hash_commitment = record { bytes = codes "h" };
  client_claim_pubkey = codes "ck";
  client_refund_pubkey = codes "rk";
  source_destination = codes "s";
  destination_destination = codes "d";
  refund_destination = codes "r";
  deadline_context = deadlines;
  created_at = 10;
  expires_at = 1000;
  nonce = codes "n";
}

abbrev quote : Quote
quote = record {
  version = 1;
  quote_id = codes "q1";
  intent_id = codes "i1";
  source = depix;
  destination = lightning;
  amount_in = record { text = codes "100" };
  min_amount_out = record { text = codes "90" };
  amount_out = record { text = codes "95" };
  fee_lbtc = record { text = codes "5" };
  fee_limit_lbtc = record { text = codes "5" };
  hash_commitment = record { bytes = codes "h" };
  client_claim_pubkey = codes "ck";
  client_refund_pubkey = codes "rk";
  source_destination = codes "s";
  destination_destination = codes "d";
  refund_destination = codes "r";
  source_refund_height = 1100;
  destination_refund_height = 180;
  lightning_expiry_height = some 180;
  deadline_context = deadlines;
  expires_at = 900;
  nonce = codes "n";
  solver_key_id = codes "k1";
  adapter_id = codes "lightning-hold";
  payment_request = none;
}

abbrev signed : SignedQuote
signed = record { quote = quote; signature_hex = codes "sig" }

abbrev swap : SwapRecord
swap = record {
  swap_id = codes "s1";
  intent = intent;
  quote = signed;
  state = created;
  funding_txid = none;
  claim_txid = none;
  payment_hash = none;
  payment_evidence_json = none;
}

-- Only the one intent and the one quote are read back.
abbrev json : Json
json = record {
  intent_to_json = λ i. i.intent_id;
  intent_from_json = λ _. some intent;
  quote_to_json = λ q. q.quote.quote_id;
  quote_from_json = λ _. some signed;
  reservation_to_json = λ r. r.reservation_id;
  transition_json = λ from to hash. from;
  evidence_json = λ funding claim hash evidence. funding;
}

abbrev empty_db : Db
empty_db = record {
  swaps = [];
  reservations = [];
  solver_ledgers = [];
  journal = [];
  funding_outbox = [];
}
