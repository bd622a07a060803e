-- ===== src/Chain/Observation.antt =====
-- src/chain/observation.rs: funding outputs, broadcasts and claims, as a node reports them.
pub mod Funding
pub mod Claims
pub mod Broadcast
use cross_network_market_mak.Prelude.{
  ℕ, ltb, ◌==◌, List, [], ◌∷◌, Bool, true, false, not, ◌||◌, Option, none, some, Result, ok, err,
  ok_or, reject_if, if◌then◌else◌,
}
use cross_network_market_mak.Prelude.Text.{Text, text_eq}
use cross_network_market_mak.Core.Primitives.{Primitives, Bytes}
use cross_network_market_mak.Chain.Types.{
  ChainResult, validation, serialization, bitcoin_regtest, liquid_regtest, native_bitcoin,
  HtlcContract, FundingEvidence, ClaimPreimage,
}
use cross_network_market_mak.Chain.Contract.{ScriptCrates}
use cross_network_market_mak.Chain.Bitcoin.{BitcoinCrate}
use cross_network_market_mak.Chain.Bitcoin.Spend.{extract_claim_preimage}
use cross_network_market_mak.Chain.Liquid.{ElementsCrate, extract_liquid_claim_preimage}
use cross_network_market_mak.Chain.Checks.{
  validate_headroom, validate_bitcoin_chain, validate_liquid_chain, validate_bitcoin_output,
  validate_liquid_output, confirmed_count, find_funding_input, decode_hex,
  validate_inspection_inputs,
}
use cross_network_market_mak.Chain.Node.{
  BitcoinVerboseOutput, BitcoinVerboseTransaction, LiquidVerboseOutput, LiquidVerboseTransaction,
  getrawtransaction, sendrawtransaction, Calls, Node, Rpc, pure, lift, bind_result, blockchain,
  bitcoin_transaction, bitcoin_txout, liquid_transaction, liquid_txout, ◌>>=◌, ◌>>◌,
}

pub record InspectArgs : Type 0 where
  pub txid : Text
  pub vout : ℕ
  pub contract : HtlcContract
  pub expected_amount_sats : ℕ
  pub min_confirmations : ℕ
  pub min_headroom_blocks : ℕ

pub record ObserveArgs : Type 0 where
  pub funding_txid : Text
  pub funding_vout : ℕ
  pub claim_txid : Text
  pub contract : HtlcContract
  pub min_confirmations : ℕ

pub record BroadcastEvidence : Type 0 where
  pub txid : Text
  pub already_known : Bool

pub record ClaimObservation : Type 0 where
  pub claim_txid : Text
  pub preimage : ClaimPreimage

-- `find`.
unfoldable pub find_bitcoin_output : ℕ → List BitcoinVerboseOutput → Option BitcoinVerboseOutput
find_bitcoin_output vout [] = none
find_bitcoin_output vout (o ∷ os) = if o.n == vout then some o else find_bitcoin_output vout os

unfoldable pub find_liquid_output : ℕ → List LiquidVerboseOutput → Option LiquidVerboseOutput
find_liquid_output vout [] = none
find_liquid_output vout (o ∷ os) = if o.n == vout then some o else find_liquid_output vout os

module _ (p : Primitives) (s : ScriptCrates) (n : Node) where
  unfoldable pub inspect_bitcoin_htlc_output : InspectArgs → Rpc FundingEvidence
  inspect_bitcoin_htlc_output args = do
    lift (validate_inspection_inputs p s args.contract bitcoin_regtest args.min_confirmations)
    info ← blockchain n
    lift (validate_bitcoin_chain info)
    lift (validate_headroom info.blocks args.contract.refund_lock_height args.min_headroom_blocks)
    transaction ← bitcoin_transaction n args.txid
    output ← lift (
        ok_or (find_bitcoin_output args.vout transaction.vout)
          (validation "Bitcoin transaction lacks the requested output"))
    answered ← bitcoin_txout n args.txid args.vout
    current ← lift (ok_or answered (validation "Bitcoin HTLC output is missing or already spent"))
    lift (validate_bitcoin_output output current args.contract args.expected_amount_sats)
    confirmations ← lift (confirmed_count transaction.confirmations)
    lift (
        reject_if
          (ltb confirmations args.min_confirmations
            || ltb current.confirmations args.min_confirmations)
          (validation "Bitcoin HTLC output is not sufficiently confirmed"))
    pure (record {
      txid = args.txid;
      vout = args.vout;
      amount_sats = args.expected_amount_sats;
      asset_id = native_bitcoin;
      confirmations = confirmations;
    })

  unfoldable pub inspect_liquid_htlc_output : InspectArgs → Rpc FundingEvidence
  inspect_liquid_htlc_output args = do
    lift (validate_inspection_inputs p s args.contract liquid_regtest args.min_confirmations)
    info ← blockchain n
    lift (validate_liquid_chain info)
    lift (validate_headroom info.blocks args.contract.refund_lock_height args.min_headroom_blocks)
    transaction ← liquid_transaction n args.txid
    output ← lift (
        ok_or (find_liquid_output args.vout transaction.vout)
          (validation "Elements transaction lacks the requested output"))
    answered ← liquid_txout n args.txid args.vout
    current ← lift (ok_or answered (validation "Elements HTLC output is missing or already spent"))
    lift (validate_liquid_output p output current args.contract args.expected_amount_sats)
    confirmations ← lift (confirmed_count transaction.confirmations)
    lift (
        reject_if
          (ltb confirmations args.min_confirmations
            || ltb current.confirmations args.min_confirmations)
          (validation "Elements HTLC output is not sufficiently confirmed"))
    pure (record {
      txid = args.txid;
      vout = args.vout;
      amount_sats = args.expected_amount_sats;
      asset_id = args.contract.asset_id;
      confirmations = confirmations;
    })

  abbrev pub reconciled : Text → Result Text Text → ChainResult BroadcastEvidence
  reconciled expected_txid (ok txid) =
      if text_eq txid expected_txid
      then ok (record { txid = expected_txid; already_known = true })
      else err (validation "transaction broadcast failed: {}")
  reconciled expected_txid (err _) = err (validation "transaction broadcast failed: {}")

  -- A broadcast that fails is reconciled with what the node knows.
  unfoldable pub reconcile_known_transaction : Text → Rpc BroadcastEvidence
  reconcile_known_transaction expected_txid w = (
    reconciled expected_txid (n.transaction_txid w expected_txid),
    getrawtransaction expected_txid ∷ w,
  )

  unfoldable pub after_send : Text → Result Text Text → Rpc BroadcastEvidence
  after_send expected_txid (ok returned_txid) = lift (
      if text_eq returned_txid expected_txid
      then ok (record { txid = expected_txid; already_known = false })
      else err (validation "RPC returned a transaction id different from local serialization"))
  after_send expected_txid (err _) = reconcile_known_transaction expected_txid

  unfoldable pub broadcast_and_reconcile : Bytes → Text → Rpc BroadcastEvidence
  broadcast_and_reconcile raw expected_txid w =
      after_send expected_txid (n.send w (p.hex_encode raw))
        (sendrawtransaction (p.hex_encode raw) ∷ w)

  -- `deserialize` and the txid of what was read, by the `bitcoin` or the `elements` crate.
  unfoldable pub broadcast_bitcoin_transaction :
      (Bytes → Option Text) → Text → Rpc BroadcastEvidence
  broadcast_bitcoin_transaction txid_of raw_hex = do
    info ← blockchain n
    lift (validate_bitcoin_chain info)
    raw ← lift (decode_hex p raw_hex)
    expected_txid ← lift (ok_or (txid_of raw) (serialization "{error}"))
    broadcast_and_reconcile raw expected_txid

  unfoldable pub broadcast_liquid_transaction : (Bytes → Option Text) → Text → Rpc BroadcastEvidence
  broadcast_liquid_transaction txid_of raw_hex = do
    info ← blockchain n
    lift (validate_liquid_chain info)
    raw ← lift (decode_hex p raw_hex)
    expected_txid ← lift (ok_or (txid_of raw) (serialization "{error}"))
    broadcast_and_reconcile raw expected_txid

  unfoldable pub observe_bitcoin_claim : BitcoinCrate → ObserveArgs → Rpc ClaimObservation
  observe_bitcoin_claim b args = do
    lift (validate_inspection_inputs p s args.contract bitcoin_regtest args.min_confirmations)
    info ← blockchain n
    lift (validate_bitcoin_chain info)
    claim ← bitcoin_transaction n args.claim_txid
    confirmations ← lift (confirmed_count claim.confirmations)
    lift (
        reject_if (ltb confirmations args.min_confirmations)
          (validation "Bitcoin claim transaction is not sufficiently confirmed"))
    input_index ← lift (find_funding_input claim.vin args.funding_txid args.funding_vout)
    raw_hex ← lift (ok_or claim.hex (validation "Bitcoin claim transaction lacks raw hex"))
    preimage ← lift (extract_claim_preimage p s b raw_hex args.contract input_index)
    pure (record {
      claim_txid = args.claim_txid;
      preimage = record { preimage = preimage; confirmations = confirmations };
    })

  unfoldable pub observe_liquid_claim : ElementsCrate → ObserveArgs → Rpc ClaimObservation
  observe_liquid_claim e args = do
    lift (validate_inspection_inputs p s args.contract liquid_regtest args.min_confirmations)
    info ← blockchain n
    lift (validate_liquid_chain info)
    claim ← liquid_transaction n args.claim_txid
    confirmations ← lift (confirmed_count claim.confirmations)
    lift (
        reject_if (ltb confirmations args.min_confirmations)
          (validation "Liquid claim transaction is not sufficiently confirmed"))
    input_index ← lift (find_funding_input claim.vin args.funding_txid args.funding_vout)
    raw_hex ← lift (ok_or claim.hex (validation "Liquid claim transaction lacks raw hex"))
    preimage ← lift (extract_liquid_claim_preimage p s e raw_hex args.contract input_index)
    pure (record {
      claim_txid = args.claim_txid;
      preimage = record { preimage = preimage; confirmations = confirmations };
    })
