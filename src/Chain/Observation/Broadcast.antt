-- ===== src/Chain/Observation/Broadcast.antt =====
-- Nothing is sent to a node before it has said that it is on a regtest.
use cross_network_market_mak.Prelude.{
  ◌≡◌, [], ◌∷◌, Bool, true, false, ◌&&◌, any, Option, Result, ok, err, arith, Bool-cases,
  Option-cases, Result-cases, inl, inr,
}
use cross_network_market_mak.Prelude.Text.{Text}
use cross_network_market_mak.Core.Primitives.{Primitives, Bytes}
use cross_network_market_mak.Chain.Contract.{ScriptCrates}
use cross_network_market_mak.Chain.Checks.{is_bitcoin_regtest, validate_bitcoin_chain, decode_hex}
use cross_network_market_mak.Chain.Node.{
  BlockchainInfo, Call, getblockchaininfo, sendrawtransaction, Calls, Node,
}
use cross_network_market_mak.Chain.Observation.{
  reconcile_known_transaction, after_send, broadcast_and_reconcile, broadcast_bitcoin_transaction,
}

-- The node has answered that it is on the regtest that the test knows.
abbrev pub has_answered : (BlockchainInfo → Bool) → Call → Bool
has_answered is_regtest (getblockchaininfo (ok info)) = is_regtest info
has_answered is_regtest _ = false

-- Whatever was sent was sent after such an answer.
abbrev pub sends_checked : (BlockchainInfo → Bool) → Calls → Bool
sends_checked is_regtest [] = true
sends_checked is_regtest (sendrawtransaction raw ∷ w) =
    any (has_answered is_regtest) w && sends_checked is_regtest w
sends_checked is_regtest (c ∷ w) = sends_checked is_regtest w

module _ (p : Primitives) (s : ScriptCrates) (n : Node) where
  after_send-checked :
      (t : BlockchainInfo → Bool) (expected : Text) (answer : Result Text Text) (w : Calls)
      → sends_checked t w ≡ true
      → sends_checked t (after_send p s n expected answer w).1 ≡ true
  unfolding after_send reconcile_known_transaction
  after_send-checked t expected (ok txid) w h = h
  after_send-checked t expected (err e) w h = h

  broadcast_and_reconcile-checked :
      (t : BlockchainInfo → Bool) (raw : Bytes) (expected : Text) (w : Calls)
      → any (has_answered t) w ≡ true
      → sends_checked t w ≡ true
      → sends_checked t (broadcast_and_reconcile p s n raw expected w).1 ≡ true
  unfolding broadcast_and_reconcile
  broadcast_and_reconcile-checked t raw expected w a h =
      after_send-checked t expected (n.send w (p.hex_encode raw))
        (sendrawtransaction (p.hex_encode raw) ∷ w) (ground arith)

  -- A broadcast to a Bitcoin node, whatever it answers and wherever it fails, sends the transaction only
  -- after the node has answered that its chain is the regtest.
  pub broadcast_bitcoin_transaction-checked :
      (txid_of : Bytes → Option Text) (raw_hex : Text) (w : Calls)
      → sends_checked is_bitcoin_regtest w ≡ true
      → sends_checked is_bitcoin_regtest (broadcast_bitcoin_transaction p s n txid_of raw_hex w).1
        ≡ true
  unfolding broadcast_bitcoin_transaction validate_bitcoin_chain
  broadcast_bitcoin_transaction-checked txid_of raw_hex w h =
      elim (Result-cases (n.blockchain_info w)) [
        | inr (e, bad) ↦ rw bad h
        | inl (info, informed) ↦ elim (Bool-cases (is_bitcoin_regtest info)) [
          | inr other ↦ rw (informed, other) h
          | inl regtest ↦ elim (Result-cases (decode_hex p raw_hex)) [
            | inr (e, bad) ↦ rw (informed, regtest, bad) h
            | inl (raw, decoded) ↦ elim (Option-cases (txid_of raw)) [
              | inl bad ↦ rw (informed, regtest, decoded, bad) h
              | inr (txid, found) ↦
                  rw (informed, regtest, decoded, found)
                    (broadcast_and_reconcile-checked is_bitcoin_regtest raw txid
                      (getblockchaininfo (ok info) ∷ w) (ground arith) h)
            ]
          ]
        ]
      ]
