-- ===== src/Chain/Observation/Funding.antt =====
-- What was seen of a funding output that is accepted.
use cross_network_market_mak.Prelude.{
  ℕ, ◌+◌, ◌≡◌, ◌<◌, ◌≤◌, List, [], ◌∷◌, true, Option, none, some, ok, arith, Option-cases,
  Result-cases, inl, inr, refl,
}
use cross_network_market_mak.Prelude.Text.{text_eq_iff}
use cross_network_market_mak.Prelude.Int.{ℤ, pos, negsuc}
use cross_network_market_mak.Prelude.Json.{Value}
use cross_network_market_mak.Core.Primitives.{Primitives}
use cross_network_market_mak.Chain.Types.{
  Chain, liquid_regtest, to_hex, HtlcContract, FundingEvidence,
}
use cross_network_market_mak.Chain.Types.Laws.{chain_eq_iff}
use cross_network_market_mak.Chain.Contract.{ScriptCrates, validate_htlc_contract}
use cross_network_market_mak.Chain.Checks.{
  validate_headroom, validate_liquid_chain, validate_liquid_output, confirmed_count,
  validate_inspection_inputs, check_amounts, parse_coin_amount, is_liquid_regtest,
}
use cross_network_market_mak.Chain.Node.{
  BlockchainInfo, LiquidGetTxOut, LiquidVerboseOutput, LiquidVerboseTransaction, getblockchaininfo,
  getrawtransaction, Calls, Node,
}
use cross_network_market_mak.Chain.Observation.{
  InspectArgs, find_liquid_output, inspect_liquid_htlc_output,
}

pub validate_headroom-ok :
    (blocks lock headroom : ℕ)
    → validate_headroom blocks lock headroom ≡ ok tt
    → blocks + headroom < lock
unfolding validate_headroom
validate_headroom-ok blocks lock headroom h = ground arith

validate_liquid_chain-ok :
    (info : BlockchainInfo) → validate_liquid_chain info ≡ ok tt → is_liquid_regtest info ≡ true
unfolding validate_liquid_chain
validate_liquid_chain-ok info h = ground arith

pub confirmed_count-ok :
    (c : Option ℤ) (n : ℕ) → confirmed_count c ≡ ok n → 0 < n → c ≡ some (pos n)
unfolding confirmed_count
confirmed_count-ok none n h p = ground arith
confirmed_count-ok (some (pos m)) n h p = ground arith
confirmed_count-ok (some (negsuc m)) n h p = cc

check_amounts-ok :
    (output current : Value) (n : ℕ)
    → check_amounts "Elements HTLC output amount does not match the expected amount" output current
        n
      ≡ ok tt
    → (parse_coin_amount output ≡ ok n) × (parse_coin_amount current ≡ ok n)
unfolding check_amounts
check_amounts-ok output current n h = elim (Result-cases (parse_coin_amount output)) [
  | inr (e, bad) ↦ absurd (ground arith)
  | inl (a, first) ↦ elim (Result-cases (parse_coin_amount current)) [
    | inr (e, bad) ↦ absurd (ground arith)
    | inl (b, second) ↦ (ground arith, ground arith)
  ]
]

-- The output of the transaction and the output that is unspent are those of the contract.
pub record IsFunded (p : Primitives) (args : InspectArgs) (output : LiquidVerboseOutput)
    (current : LiquidGetTxOut) : Type 0 where
  pub index : output.n ≡ args.vout
  pub script : output.script_pub_key ≡ args.contract.output_script_hex
  pub current_script : current.script_pub_key ≡ args.contract.output_script_hex
  pub asset : output.asset ≡ to_hex p args.contract.asset_id
  pub current_asset : current.asset ≡ to_hex p args.contract.asset_id
  pub amount : parse_coin_amount output.value ≡ ok args.expected_amount_sats
  pub current_amount : parse_coin_amount current.value ≡ ok args.expected_amount_sats

find_liquid_output-n :
    (vout : ℕ) (os : List LiquidVerboseOutput) (o : LiquidVerboseOutput)
    → find_liquid_output vout os ≡ some o
    → o.n ≡ vout
unfolding find_liquid_output
find_liquid_output-n vout [] o h = cc
find_liquid_output-n vout (x ∷ os) o h = ground (arith, find_liquid_output-n vout os o)

validate_liquid_output-IsFunded :
    (p : Primitives) (args : InspectArgs) (output : LiquidVerboseOutput) (current : LiquidGetTxOut)
    → output.n ≡ args.vout
    → validate_liquid_output p output current args.contract args.expected_amount_sats ≡ ok tt
    → IsFunded p args output current
unfolding validate_liquid_output
validate_liquid_output-IsFunded p args output current hn h = ground (
  arith,
  check_amounts-ok output.value current.value args.expected_amount_sats,
  text_eq_iff output.script_pub_key args.contract.output_script_hex,
  text_eq_iff current.script_pub_key args.contract.output_script_hex,
  text_eq_iff output.asset (to_hex p args.contract.asset_id),
  text_eq_iff current.asset (to_hex p args.contract.asset_id),
)

module _ (p : Primitives) (s : ScriptCrates) (n : Node) where
  pub validate_inspection_inputs-ok :
      (c : HtlcContract) (chain : Chain) (min : ℕ)
      → validate_inspection_inputs p s c chain min ≡ ok tt
      → (validate_htlc_contract p s c ≡ ok tt) × (c.chain ≡ chain) × (0 < min)
  unfolding validate_inspection_inputs
  validate_inspection_inputs-ok c chain min h = ground (arith, chain_eq_iff c.chain chain)

  -- The calls before the output is asked for: the node was asked for its chain, then for the transaction.
  abbrev pub asked_chain : Calls → Calls
  asked_chain w = getblockchaininfo (n.blockchain_info w) ∷ w

  abbrev pub asked_transaction : InspectArgs → Calls → Calls
  asked_transaction args w = getrawtransaction args.txid ∷ asked_chain w

  -- What the node answered when a funding output was accepted.
  pub record LiquidFunding (args : InspectArgs) (w : Calls) (e : FundingEvidence) : Type 0 where
    pub info : BlockchainInfo
    pub transaction : LiquidVerboseTransaction
    pub output : LiquidVerboseOutput
    pub current : LiquidGetTxOut
    pub asked : n.blockchain_info w ≡ ok info
    pub answered : n.liquid_transaction (asked_chain w) args.txid ≡ ok transaction
    pub unspent : n.liquid_txout (asked_transaction args w) args.txid args.vout ≡ ok (some current)
    pub is_regtest : is_liquid_regtest info ≡ true
    pub is_found : find_liquid_output args.vout transaction.vout ≡ some output
    pub is_funded : IsFunded p args output current
    pub headroom : info.blocks + args.min_headroom_blocks < args.contract.refund_lock_height
    pub is_contract : validate_htlc_contract p s args.contract ≡ ok tt
    pub confirmed : transaction.confirmations ≡ some (pos e.confirmations)
    pub enough : args.min_confirmations ≤ e.confirmations
    pub enough_unspent : args.min_confirmations ≤ current.confirmations
    pub positive : 0 < args.min_confirmations
    pub outpoint : (e.txid ≡ args.txid) × (e.vout ≡ args.vout)
    pub asset : e.asset_id ≡ args.contract.asset_id
    pub amount : e.amount_sats ≡ args.expected_amount_sats

  -- A Liquid funding output is accepted only if the node answers, when it is asked for its chain, that it
  -- is on a Liquid regtest and at a height more than the required headroom below the refund height; the
  -- contract is the one its terms make; the transaction that the node answers with next has the output,
  -- and the output that it answers with last is unspent, each with the script and asset of the contract
  -- and exactly the expected amount; and both are confirmed often enough. The evidence has the outpoint,
  -- the asset, the amount and the confirmations of the answered transaction.
  pub inspect_liquid_htlc_output-ok :
      (args : InspectArgs) (w : Calls) (e : FundingEvidence)
      → (inspect_liquid_htlc_output p s n args w).0 ≡ ok e
      → LiquidFunding args w e
  unfolding inspect_liquid_htlc_output
  inspect_liquid_htlc_output-ok args w e h =
      elim (Result-cases
        (validate_inspection_inputs p s args.contract liquid_regtest args.min_confirmations)) [
          | inr (x, bad) ↦ absurd (ground arith)
          | inl (u, inputs) ↦ elim (Result-cases (n.blockchain_info w)) [
            | inr (x, bad) ↦ absurd (ground arith)
            | inl (info, informed) ↦
                let w1 = getblockchaininfo (n.blockchain_info w) ∷ w in
                elim (Result-cases (n.liquid_transaction w1 args.txid)) [
                  | inr (x, bad) ↦ absurd (ground arith)
                  | inl (tx, seen) ↦ elim (Option-cases (find_liquid_output args.vout tx.vout)) [
                    | inl bad ↦ absurd (ground arith)
                    | inr (output, found) ↦
                        let w2 = getrawtransaction args.txid ∷ w1 in
                        elim (Result-cases (n.liquid_txout w2 args.txid args.vout)) [
                          | inr (x, bad) ↦ absurd (ground arith)
                          | inl (answered, got) ↦ elim (Option-cases answered) [
                            | inl spent ↦ absurd (ground arith)
                            | inr (current, unspent) ↦
                                elim (Result-cases (confirmed_count tx.confirmations)) [
                                  | inr (x, bad) ↦ absurd (ground arith)
                                  | inl (count, counted) ↦
                                      let valid =
                                        validate_inspection_inputs-ok args.contract liquid_regtest
                                          args.min_confirmations (ground arith) in
                                      let enough : (args.min_confirmations ≤ count)
                                          × (args.min_confirmations ≤ current.confirmations) =
                                        ground arith in
                                      let same : count ≡ e.confirmations = ground arith in
                                      record {
                                        info = info;
                                        transaction = tx;
                                        output = output;
                                        current = current;
                                        asked = informed;
                                        answered = seen;
                                        unspent = rw (got, unspent) refl;
                                        is_regtest = validate_liquid_chain-ok info (ground arith);
                                        is_found = found;
                                        is_funded =
                                            validate_liquid_output-IsFunded p args output current
                                              (find_liquid_output-n args.vout tx.vout output found)
                                              (ground arith);
                                        headroom =
                                            validate_headroom-ok info.blocks
                                              args.contract.refund_lock_height
                                              args.min_headroom_blocks (ground arith);
                                        is_contract = valid.0;
                                        confirmed = rw (← same) (
                                            confirmed_count-ok tx.confirmations count counted
                                              (omega (arith, valid.2, enough.0)));
                                        enough = rw (← same) enough.0;
                                        enough_unspent = enough.1;
                                        positive = valid.2;
                                        outpoint = ground arith;
                                        asset = ground arith;
                                        amount = ground arith;
                                      }
                                ]
                          ]
                        ]
                  ]
                ]
          ]
        ]
