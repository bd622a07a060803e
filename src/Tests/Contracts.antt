-- ===== src/Tests/Contracts.antt =====
-- HTLC contracts, their spends, and what a node says of them.
use cross_network_market_mak.Prelude.{
  ℕ, ◌≡◌, ◌↔◌, ◌++◌, ◌&&◌, refl, true, false, List, [], ◌∷◌, Option, none, some, ok, length,
}
use cross_network_market_mak.Prelude.Text.{codes, text_eq}
use cross_network_market_mak.Core.Primitives.{Bytes}
use cross_network_market_mak.Chain.Types.{
  bitcoin_regtest, chain_eq, native_bitcoin, asset_eq, HtlcContract, contract_eq,
}
use cross_network_market_mak.Chain.Script.{
  Script, push_slice, htlc_instructions, validate_lock_height, build_htlc_witness_script,
}
use cross_network_market_mak.Chain.Script.Consensus.{Spender, SpenderLaws, accepts}
use cross_network_market_mak.Chain.Script.Htlc.{unlocks, build_htlc_witness_script-accepts}
use cross_network_market_mak.Chain.Contract.{
  ScriptCrates, validate_asset, contract_address, create_htlc_contract, validate_htlc_contract,
}
use cross_network_market_mak.Chain.Contract.Laws.{IsContract, validate_htlc_contract_iff}
use cross_network_market_mak.Chain.Bitcoin.{
  TxIn, Transaction, SignedTransaction, BitcoinCrate, encoded_signature, set_witness,
  validate_bitcoin_contract, expected_witness_script, validate_preimage, signed_transaction,
}
use cross_network_market_mak.Chain.Bitcoin.Spend.{
  branch_key, sign_bitcoin_htlc_spend, extract_claim_preimage,
}
use cross_network_market_mak.Chain.Bitcoin.Extraction.{
  extract_claim_preimage-sign_bitcoin_htlc_spend,
}
use cross_network_market_mak.Tests.{plain}
use cross_network_market_mak.Tests.Encoding.{written, read_back, read_back-written}

-- A script stands for its bytes: the pushes alone, each with its length.
abbrev pub pushed : Script → Bytes
pushed [] = []
pushed (push_slice b ∷ s) = length b ∷ b ++ pushed s
pushed (_ ∷ s) = pushed s

abbrev pub scripts : ScriptCrates
scripts = record {
  as_bytes = pushed;
  to_p2wsh = λ b. b;
  bitcoin_p2wsh = λ b. codes "bcrt";
  elements_from_hex = λ t. some t;
  elements_to_v0_p2wsh = λ b. b;
  elements_p2wsh = λ b. codes "el1";
}

abbrev pub secret : Bytes
secret = codes "01234567890123456789012345678901"

abbrev pub contract : HtlcContract
contract = record {
  chain = bitcoin_regtest;
  asset_id = native_bitcoin;
  hash_lock = secret;
  claim_pubkey = codes "C";
  refund_pubkey = codes "R";
  refund_lock_height = 1100;
  witness_script_hex = pushed (htlc_instructions secret (codes "C") (codes "R") 1100);
  output_script_hex = pushed (htlc_instructions secret (codes "C") (codes "R") 1100);
  address = codes "bcrt";
}

abbrev spender : Spender
spender = record {
  sha256 = λ b. b;
  checksig = λ sig key. true;
  lock_time = 1100;
  is_final = false;
  script_num = λ n. n ∷ [];
  read_num = λ b. elim b as (λ _. Option ℕ) [ [] ↦ none | n ∷ _ ↦ some n ];
}

abbrev spender_laws : SpenderLaws spender
spender_laws = record { read-script_num = λ n. refl }

built :
    build_htlc_witness_script secret (codes "C") (codes "R") 1100
    ≡ ok (htlc_instructions secret (codes "C") (codes "R") 1100)
unfolding build_htlc_witness_script validate_lock_height
built = refl

build_htlc_witness_script-accepts_example :
    accepts spender
      (htlc_instructions secret (codes "C") (codes "R") 1100)
      ((1 ∷ []) ∷ secret ∷ codes "sig" ∷ [])
    ≡ unlocks spender secret (codes "C") (codes "R") 1100 ((1 ∷ []) ∷ secret ∷ codes "sig" ∷ [])
build_htlc_witness_script-accepts_example =
    build_htlc_witness_script-accepts spender spender_laws secret (codes "C") (codes "R") 1100
      (htlc_instructions secret (codes "C") (codes "R") 1100) ((1 ∷ []) ∷ secret ∷ codes "sig" ∷ [])
      built

validate_htlc_contract_iff_example :
    (validate_htlc_contract plain scripts contract ≡ ok tt) ↔ IsContract plain scripts contract
validate_htlc_contract_iff_example = validate_htlc_contract_iff plain scripts contract

contract_is_valid : validate_htlc_contract plain scripts contract ≡ ok tt
unfolding validate_htlc_contract create_htlc_contract validate_asset contract_address
    build_htlc_witness_script validate_lock_height chain_eq asset_eq contract_eq text_eq
contract_is_valid = refl

contract-IsContract : IsContract plain scripts contract
contract-IsContract = (validate_htlc_contract_iff plain scripts contract).0 contract_is_valid

-- The witness of the only input stands for a transaction.
abbrev pub claim_input : TxIn
claim_input = record {
  previous_txid = codes "fund";
  previous_vout = 0;
  sequence = 0xfffffffd;
  witness = [];
}

abbrev pub spend : Transaction
spend = record { version = 2; lock_time = 0; input = claim_input ∷ []; output = [] }

abbrev first_witness : List TxIn → List Bytes
first_witness [] = []
first_witness (i ∷ _) = i.witness

abbrev pub crate : BitcoinCrate
crate = record {
  parse_txid = λ t. some t;
  public_key = λ k. k;
  new_p2wpkh = λ k. k;
  p2wpkh_sighash = λ tx i script amount. some (codes "digest");
  p2wsh_sighash = λ tx i script amount. some (codes "digest");
  sign_ecdsa = λ digest key. digest;
  serialize_hex = λ tx. written (first_witness tx.input);
  deserialize_hex =
      λ t. some (record spend { input = record claim_input { witness = read_back t } ∷ [] });
  compute_txid = λ tx. codes "txid";
}

crate_reads :
    (w : List Bytes)
    → crate.deserialize_hex (crate.serialize_hex (set_witness w spend)) ≡ some (set_witness w spend)
unfolding set_witness
crate_reads w = rw (read_back-written w) refl

abbrev pub claim_script : Bytes
claim_script = pushed (htlc_instructions secret (codes "C") (codes "R") 1100)

abbrev pub claim_stack : List Bytes
claim_stack = encoded_signature (codes "digest") ∷ secret ∷ (1 ∷ []) ∷ claim_script ∷ []

abbrev pub signed_claim : SignedTransaction
signed_claim = record { raw_hex = written claim_stack; txid = codes "txid" }

claim_is_signed :
    sign_bitcoin_htlc_spend plain scripts crate spend contract (codes "C") 100 (some secret)
    ≡ ok signed_claim
unfolding sign_bitcoin_htlc_spend validate_bitcoin_contract validate_htlc_contract
    create_htlc_contract validate_asset contract_address build_htlc_witness_script
    validate_lock_height expected_witness_script branch_key validate_preimage signed_transaction
    set_witness chain_eq asset_eq contract_eq text_eq
claim_is_signed = refl

-- The rules check the input of the spend, and accept one signature of the claim key only.
abbrev claim_spender : Spender
claim_spender = record spender {
  lock_time = 0;
  checksig = λ sig key. text_eq sig (encoded_signature (codes "digest")) && text_eq key (codes "C");
}

abbrev claim_laws : SpenderLaws claim_spender
claim_laws = record { read-script_num = λ n. refl }

extract_claim_preimage-sign_bitcoin_htlc_spend_example :
    extract_claim_preimage plain scripts crate (written claim_stack) contract 0 ≡ ok secret
extract_claim_preimage-sign_bitcoin_htlc_spend_example =
    extract_claim_preimage-sign_bitcoin_htlc_spend plain scripts crate spend claim_input contract
      (codes "C") 100 secret signed_claim crate_reads refl refl claim_is_signed
