-- ===== src/Chain/Bitcoin/Extraction.antt =====
-- What is signed for a branch of an HTLC unlocks it, and the preimage of a claim is read back.
use cross_network_market_mak.Prelude.{
  ℕ, ◌≡◌, ◌<◌, ◌≤◌, refl, length, get_elem?, List, [], ◌∷◌, Bool, true, false, not, Option, none,
  some, ok, arith, ◌==◌, Option-cases, Result-cases, inl, inr,
}
use cross_network_market_mak.Prelude.Text.{text_eq_iff, text_eq_refl}
use cross_network_market_mak.Core.Primitives.{Primitives, Bytes}
use cross_network_market_mak.Chain.Types.{HtlcContract}
use cross_network_market_mak.Chain.Script.{Script}
use cross_network_market_mak.Chain.Script.Consensus.{Spender, Stack}
use cross_network_market_mak.Chain.Contract.{ScriptCrates}
use cross_network_market_mak.Chain.Bitcoin.{
  TxIn, Transaction, SignedTransaction, BitcoinCrate, set_first, set_witness, encoded_signature,
  validate_bitcoin_contract, expected_witness_script, validate_preimage, signed_transaction,
}
use cross_network_market_mak.Chain.Bitcoin.Spend.{
  branch_key, branch_witness, sign_bitcoin_htlc_spend, claim_witness_preimage,
  extract_claim_preimage,
}

-- The witness without its script, the last element on top.
abbrev pub branch_stack : Bytes → Option Bytes → Stack
branch_stack sig (some preimage) = (1 ∷ []) ∷ preimage ∷ sig ∷ []
branch_stack sig none = [] ∷ sig ∷ []

not-false : (x : Bool) → not x ≡ false → x ≡ true
not-false true h = refl
not-false false h = cc

first_of :
    (w : List Bytes) (is : List TxIn) (i : TxIn)
    → get_elem? is 0 ≡ some i
    → get_elem? (set_first w is) 0 ≡ some (record i { witness = w })
first_of w [] i h = cc
first_of w (x ∷ is) i h = ground arith

module _ (p : Primitives) (s : ScriptCrates) (b : BitcoinCrate) where
  signed_transaction-ok :
      (tx : Transaction) (st : SignedTransaction)
      → signed_transaction p s b tx ≡ ok st
      → st.raw_hex ≡ b.serialize_hex tx
  unfolding signed_transaction
  signed_transaction-ok tx st h = ground arith

  -- What a signed spend of a contract is.
  record Signed (tx : Transaction) (c : HtlcContract) (key : Bytes) (amount : ℕ)
      (preimage : Option Bytes) (st : SignedTransaction) : Type 0 where
    sighash : Bytes
    script_bytes : Bytes
    is_valid : validate_bitcoin_contract p s b c ≡ ok tt
    is_expected : expected_witness_script p s b c ≡ ok script_bytes
    hash_is : b.p2wsh_sighash tx 0 script_bytes amount ≡ some sighash
    has_key : branch_key p s b c preimage ≡ ok (b.public_key key)
    raw :
        st.raw_hex
        ≡ b.serialize_hex (
            set_witness
              (branch_witness p s b
                (encoded_signature (b.sign_ecdsa sighash key))
                preimage
                script_bytes)
              tx)

  sign_bitcoin_htlc_spend-Signed :
      (tx : Transaction) (c : HtlcContract) (key : Bytes) (amount : ℕ) (preimage : Option Bytes)
      (st : SignedTransaction)
      → sign_bitcoin_htlc_spend p s b tx c key amount preimage ≡ ok st
      → Signed tx c key amount preimage st
  unfolding sign_bitcoin_htlc_spend
  sign_bitcoin_htlc_spend-Signed tx c key amount preimage st h =
      elim (Result-cases (expected_witness_script p s b c)) [
        | inr (error, bad) ↦ absurd (ground arith)
        | inl (script, script_is) ↦ elim (Result-cases (branch_key p s b c preimage)) [
          | inr (error, bad) ↦ absurd (ground arith)
          | inl (expected, key_is) ↦ elim (Option-cases (b.p2wsh_sighash tx 0 script amount)) [
            | inl bad ↦ absurd (ground arith)
            | inr (sighash, hash_is) ↦ record {
              sighash = sighash;
              script_bytes = script;
              is_valid = ground arith;
              is_expected = script_is;
              hash_is = hash_is;
              has_key = ground (arith, text_eq_iff (b.public_key key) expected);
              raw = signed_transaction-ok _ st (ground arith);
            }
          ]
        ]
      ]

  branch_key-claim :
      (c : HtlcContract) (preimage key : Bytes)
      → branch_key p s b c (some preimage) ≡ ok key
      → (key ≡ c.claim_pubkey) × (p.sha256 preimage ≡ c.hash_lock)
  unfolding branch_key validate_preimage
  branch_key-claim c preimage key h = ground (arith, text_eq_iff (p.sha256 preimage) c.hash_lock)

  -- When a transaction can spend the branch from its input: a preimage is of 32 bytes; a refund is
  -- not before its height, by the lock time of the transaction, which the input's sequence enables.
  abbrev pub Spendable : Transaction → TxIn → HtlcContract → Option Bytes → Type 0
  Spendable tx i c (some preimage) = length preimage ≡ 32
  Spendable tx i c none =
      ((i.sequence == 0xffffffff) ≡ false)
      × (c.refund_lock_height ≤ tx.lock_time)
      × (tx.lock_time < 500000000)

  -- The consensus rules check this input of this transaction, and hash as the contracts do.
  pub record Checks (t : Spender) (tx : Transaction) (i : TxIn) : Type 0 where
    pub hashes : t.sha256 ≡ p.sha256
    pub locks : t.lock_time ≡ tx.lock_time
    pub finality : t.is_final ≡ (i.sequence == 0xffffffff)

  first_input :
      (w : List Bytes) (tx : Transaction) (i : TxIn)
      → get_elem? tx.input 0 ≡ some i
      → get_elem? (set_witness w tx).input 0 ≡ some (record i { witness = w })
  unfolding set_witness
  first_input w tx i h = first_of w tx.input i h

  -- The preimage of a signed claim is read back from the transaction, if it has 32 bytes, the
  -- transaction has an input, and the transaction with a witness is read back from its bytes.
  pub extract_claim_preimage-sign_bitcoin_htlc_spend :
      (tx : Transaction) (i : TxIn) (c : HtlcContract) (key : Bytes) (amount : ℕ) (preimage : Bytes)
      (st : SignedTransaction)
      → ((w : List Bytes)
          → b.deserialize_hex (b.serialize_hex (set_witness w tx)) ≡ some (set_witness w tx))
      → get_elem? tx.input 0 ≡ some i
      → length preimage ≡ 32
      → sign_bitcoin_htlc_spend p s b tx c key amount (some preimage) ≡ ok st
      → extract_claim_preimage p s b st.raw_hex c 0 ≡ ok preimage
  unfolding extract_claim_preimage claim_witness_preimage validate_preimage
  extract_claim_preimage-sign_bitcoin_htlc_spend tx i c key amount preimage st law hi hp h =
      let signed = sign_bitcoin_htlc_spend-Signed tx c key amount (some preimage) st h in
      let k = branch_key-claim c preimage (b.public_key key) signed.has_key in
      let sig = encoded_signature (b.sign_ecdsa signed.sighash key) in
      let w = branch_witness p s b sig (some preimage) signed.script_bytes in
      rw (signed.is_valid, signed.raw, law w, first_input w tx i hi, signed.is_expected)
        (ground (
          arith,
          text_eq_refl (1 ∷ []),
          text_eq_refl signed.script_bytes,
          text_eq_iff (p.sha256 preimage) c.hash_lock,
        ))
