-- ===== src/Chain/Observation/Claims.antt =====
-- What was seen of a claim whose preimage is taken.
use cross_network_market_mak.Prelude.{
  ℕ, ◌+◌, ◌≡◌, ◌≤◌, refl, length, get_elem?, List, [], ◌∷◌, true, some, ok, arith, Bool-cases,
  Option-cases, Result-cases, inl, inr, suc, subst,
}
use cross_network_market_mak.Prelude.Text.{Text, text_eq_iff}
use cross_network_market_mak.Prelude.Int.{pos}
use cross_network_market_mak.Core.Primitives.{Primitives, Bytes}
use cross_network_market_mak.Chain.Types.{bitcoin_regtest, HtlcContract}
use cross_network_market_mak.Chain.Contract.{ScriptCrates, validate_htlc_contract}
use cross_network_market_mak.Chain.Bitcoin.{
  BitcoinCrate, expected_witness_script, validate_preimage,
}
use cross_network_market_mak.Chain.Bitcoin.Spend.{extract_claim_preimage, claim_witness_preimage}
use cross_network_market_mak.Chain.Checks.{
  validate_bitcoin_chain, confirmed_count, find_funding_input, position_from, spends,
  is_bitcoin_regtest,
}
use cross_network_market_mak.Chain.Node.{
  BlockchainInfo, GenericInput, BitcoinVerboseTransaction, getblockchaininfo, Calls, Node,
}
use cross_network_market_mak.Chain.Observation.{
  ObserveArgs, ClaimObservation, observe_bitcoin_claim,
}
use cross_network_market_mak.Chain.Observation.Funding.{
  confirmed_count-ok, validate_inspection_inputs-ok,
}

validate_bitcoin_chain-ok :
    (info : BlockchainInfo) → validate_bitcoin_chain info ≡ ok tt → is_bitcoin_regtest info ≡ true
unfolding validate_bitcoin_chain
validate_bitcoin_chain-ok info h = ground arith

-- The input at the position that is found spends the outpoint.
abbrev pub SpendsAt : Text → ℕ → List GenericInput → ℕ → Type 0
SpendsAt txid vout inputs index =
    (i : GenericInput) × (get_elem? inputs index ≡ some i) × (spends txid vout i ≡ true)

position_from-SpendsAt :
    (start : ℕ) (txid : Text) (vout : ℕ) (inputs : List GenericInput) (index : ℕ)
    → position_from start txid vout inputs ≡ some index
    → (k : ℕ) × (index ≡ start + k) × SpendsAt txid vout inputs k
unfolding position_from
position_from-SpendsAt start txid vout [] index h = absurd (cc)
position_from-SpendsAt start txid vout (i ∷ is) index h = elim (Bool-cases (spends txid vout i)) [
  | inl found ↦ (0, ground arith, (i, refl, found))
  | inr other ↦
      let r = position_from-SpendsAt (suc start) txid vout is index (ground arith) in
      (suc r.0, omega (arith, r.1), r.2)
]

find_funding_input-SpendsAt :
    (inputs : List GenericInput) (txid : Text) (vout index : ℕ)
    → find_funding_input inputs txid vout ≡ ok index
    → SpendsAt txid vout inputs index
unfolding find_funding_input
find_funding_input-SpendsAt inputs txid vout index h =
    let r = position_from-SpendsAt 0 txid vout inputs index (ground arith) in
    subst (SpendsAt txid vout inputs) (omega (arith, r.1)) r.2

claim_witness_preimage-ok :
    (p : Primitives) (s : ScriptCrates) (b : BitcoinCrate) (witness : List Bytes)
    (expected preimage : Bytes)
    → claim_witness_preimage p s b witness expected ≡ ok preimage
    → length preimage ≡ 32
unfolding claim_witness_preimage
claim_witness_preimage-ok p s b [] e x h = cc
claim_witness_preimage-ok p s b (w0 ∷ []) e x h = cc
claim_witness_preimage-ok p s b (w0 ∷ w1 ∷ []) e x h = cc
claim_witness_preimage-ok p s b (w0 ∷ w1 ∷ w2 ∷ []) e x h = cc
claim_witness_preimage-ok p s b (w0 ∷ w1 ∷ w2 ∷ w3 ∷ []) e x h = ground arith
claim_witness_preimage-ok p s b (w0 ∷ w1 ∷ w2 ∷ w3 ∷ w4 ∷ ws) e x h = cc

module _ (p : Primitives) (s : ScriptCrates) (b : BitcoinCrate) where
  pub extract_claim_preimage-ok :
      (raw_hex : Text) (c : HtlcContract) (index : ℕ) (preimage : Bytes)
      → extract_claim_preimage p s b raw_hex c index ≡ ok preimage
      → (p.sha256 preimage ≡ c.hash_lock) × (length preimage ≡ 32)
  unfolding extract_claim_preimage validate_preimage
  extract_claim_preimage-ok raw_hex c index preimage h =
      elim (Option-cases (b.deserialize_hex raw_hex)) [
        | inl bad ↦ absurd (ground arith)
        | inr (tx, read) ↦ elim (Option-cases (get_elem? tx.input index)) [
          | inl bad ↦ absurd (ground arith)
          | inr (i, found) ↦ elim (Result-cases (expected_witness_script p s b c)) [
            | inr (e, bad) ↦ absurd (ground arith)
            | inl (script, expected) ↦
                elim (Result-cases (claim_witness_preimage p s b i.witness script)) [
                  | inr (e, bad) ↦ absurd (ground arith)
                  | inl (x, taken) ↦
                      let same : x ≡ preimage = ground arith in
                      (
                        ground (arith, text_eq_iff (p.sha256 x) c.hash_lock),
                        rw (← same) (claim_witness_preimage-ok p s b i.witness script x taken),
                      )
                ]
          ]
        ]
      ]

  -- What the node answered when a claim was observed.
  pub record BitcoinClaim (n : Node) (args : ObserveArgs) (w : Calls) (o : ClaimObservation)
      : Type 0 where
    pub info : BlockchainInfo
    pub claim : BitcoinVerboseTransaction
    pub index : ℕ
    pub raw : Text
    pub asked : n.blockchain_info w ≡ ok info
    pub answered :
        n.bitcoin_transaction (getblockchaininfo (n.blockchain_info w) ∷ w) args.claim_txid
        ≡ ok claim
    pub has_raw : claim.hex ≡ some raw
    pub extracted : extract_claim_preimage p s b raw args.contract index ≡ ok o.preimage.preimage
    pub is_regtest : is_bitcoin_regtest info ≡ true
    pub is_contract : validate_htlc_contract p s args.contract ≡ ok tt
    pub spent : SpendsAt args.funding_txid args.funding_vout claim.vin index
    pub confirmed : claim.confirmations ≡ some (pos o.preimage.confirmations)
    pub enough : args.min_confirmations ≤ o.preimage.confirmations
    pub unlocks : p.sha256 o.preimage.preimage ≡ args.contract.hash_lock
    pub sized : length o.preimage.preimage ≡ 32
    pub identified : o.claim_txid ≡ args.claim_txid

  -- A Bitcoin claim is observed only if the node answers, when it is asked for its chain, that it is on
  -- the regtest, and answers with the claim transaction when it is asked for that next; the contract is
  -- the one its terms make; the answered transaction is confirmed often enough and has an input that
  -- spends the funding outpoint. The preimage is the one that is extracted from the raw transaction of
  -- that answer at that input; it has 32 bytes and hashes to the lock of the contract.
  pub observe_bitcoin_claim-ok :
      (n : Node) (args : ObserveArgs) (w : Calls) (o : ClaimObservation)
      → (observe_bitcoin_claim p s n b args w).0 ≡ ok o
      → BitcoinClaim n args w o
  unfolding observe_bitcoin_claim
  observe_bitcoin_claim-ok n args w o h = elim (Result-cases (n.blockchain_info w)) [
    | inr (x, bad) ↦ absurd (ground arith)
    | inl (info, informed) ↦
        let w1 = getblockchaininfo (n.blockchain_info w) ∷ w in
        elim (Result-cases (n.bitcoin_transaction w1 args.claim_txid)) [
          | inr (x, bad) ↦ absurd (ground arith)
          | inl (tx, seen) ↦ elim (Result-cases (confirmed_count tx.confirmations)) [
            | inr (x, bad) ↦ absurd (ground arith)
            | inl (count, counted) ↦
                elim (Result-cases
                  (find_funding_input tx.vin args.funding_txid args.funding_vout)) [
                    | inr (x, bad) ↦ absurd (ground arith)
                    | inl (index, found) ↦ elim (Option-cases tx.hex) [
                      | inl bad ↦ absurd (ground arith)
                      | inr (raw, has_raw) ↦
                          let x = o.preimage.preimage in
                          let valid =
                            validate_inspection_inputs-ok p s n args.contract bitcoin_regtest
                              args.min_confirmations (ground arith) in
                          let enough : args.min_confirmations ≤ count = ground arith in
                          let same : count ≡ o.preimage.confirmations = ground arith in
                          let taken =
                            extract_claim_preimage-ok raw args.contract index x (ground arith) in
                          record {
                            info = info;
                            claim = tx;
                            index = index;
                            raw = raw;
                            asked = informed;
                            answered = seen;
                            has_raw = has_raw;
                            extracted = ground arith;
                            is_regtest = validate_bitcoin_chain-ok info (ground arith);
                            is_contract = valid.0;
                            spent =
                                find_funding_input-SpendsAt tx.vin args.funding_txid
                                  args.funding_vout index found;
                            confirmed = rw (← same) (
                                confirmed_count-ok tx.confirmations count counted
                                  (omega (arith, valid.2, enough)));
                            enough = rw (← same) enough;
                            unlocks = taken.0;
                            sized = taken.1;
                            identified = ground arith;
                          }
                    ]
                  ]
          ]
        ]
  ]
