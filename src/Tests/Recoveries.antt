-- ===== src/Tests/Recoveries.antt =====
-- A recovery file that is made and read again.
use cross_network_market_mak.Prelude.{
  ℕ, suc, zero, ◌≡◌, ◌↔◌, refl, true, List, [], ◌∷◌, Option, none, some, ok, inr, Bool, false,
}
use cross_network_market_mak.Prelude.Text.{Text, codes, text_eq}
use cross_network_market_mak.Core.Primitives.{PrimitiveLaws, Bytes}
use cross_network_market_mak.Chain.Types.{
  Chain, bitcoin_regtest, liquid_regtest, AssetId, native_bitcoin, explicit,
}
use cross_network_market_mak.Chain.Script.{validate_lock_height, build_htlc_witness_script}
use cross_network_market_mak.Chain.Contract.{validate_asset, contract_address, create_htlc_contract}
use cross_network_market_mak.Swaps.Error.{SwapResult}
use cross_network_market_mak.Swaps.Recovery.{
  SwapDirection, depix_to_lightning, lightning_to_depix, SwapKeyMaterial, SwapRecoveryRecord,
}
use cross_network_market_mak.Swaps.Recovery.Checks.{
  KeyCrate, PrepareRecoveryRequest, Secrets, validate_recovery, new_record, request_material,
  make_contract, validate_material, validate_key_pair,
}
use cross_network_market_mak.Swaps.Recovery.Files.{
  RecoveryEnvelope, Sealing, Faults, File, prepare_or_load_recovery, read_recovery, read_file,
  prepare_new, write_recovery, create_new, write_new, seal,
}
use cross_network_market_mak.Swaps.Recovery.Laws.{IsBound, validate_recovery_iff}
use cross_network_market_mak.Swaps.Recovery.WriteOnce.{prepare_or_load_recovery_kept}
use cross_network_market_mak.Swaps.Recovery.Replay.{SealingLaws, prepare_or_load_recovery_replays}
use cross_network_market_mak.Tests.{plain}
use cross_network_market_mak.Tests.Encoding.{written, read_back, read_back-written, read_back-line}
use cross_network_market_mak.Tests.Contracts.{scripts, secret, contract}

abbrev keys : KeyCrate
keys = record { public_key = λ k. some k }

abbrev material : SwapKeyMaterial
material = record {
  preimage = secret;
  hash_commitment = secret;
  claim_private_key = codes "C";
  claim_public_key = codes "C";
  refund_private_key = codes "R";
  refund_public_key = codes "R";
  destination_private_key = codes "D";
  destination_public_key = codes "D";
}

abbrev request : PrepareRecoveryRequest
request = record {
  direction = lightning_to_depix;
  chain = bitcoin_regtest;
  asset_id = native_bitcoin;
  fee_asset_id = native_bitcoin;
  amount_sats = 100;
  asset_amount_sats = 100;
  fee_sats = 1;
  refund_lock_height = 1100;
  quote_id = none;
  supplied_material = some material;
}

abbrev stored : SwapRecoveryRecord
stored = record {
  version = 1;
  session = record {
    direction = lightning_to_depix;
    material = material;
    asset_id = native_bitcoin;
    fee_asset_id = native_bitcoin;
    amount_sats = 100;
    asset_amount_sats = 100;
    fee_sats = 1;
    refund_lock_height = 1100;
    quote_id = none;
  };
  contract = contract;
}

validate_recovery_iff_example :
    (validate_recovery plain scripts keys stored request ≡ ok tt)
    ↔ IsBound plain scripts keys stored request
validate_recovery_iff_example = validate_recovery_iff plain scripts keys stored request

abbrev direction_code : SwapDirection → Bytes
direction_code depix_to_lightning = []
direction_code lightning_to_depix = 0 ∷ []

abbrev of_direction : Bytes → SwapDirection
of_direction [] = depix_to_lightning
of_direction (_ ∷ _) = lightning_to_depix

abbrev chain_code : Chain → Bytes
chain_code bitcoin_regtest = []
chain_code liquid_regtest = 0 ∷ []

abbrev of_chain : Bytes → Chain
of_chain [] = bitcoin_regtest
of_chain (_ ∷ _) = liquid_regtest

abbrev asset_code : AssetId → Bytes
asset_code native_bitcoin = []
asset_code (explicit b) = 0 ∷ b

abbrev of_asset : Bytes → AssetId
of_asset [] = native_bitcoin
of_asset (_ ∷ b) = explicit b

abbrev option_code : Option Text → Bytes
option_code none = []
option_code (some t) = 0 ∷ t

abbrev of_option : Bytes → Option Text
of_option [] = none
of_option (_ ∷ t) = some t

of_direction-code : (d : SwapDirection) → of_direction (direction_code d) ≡ d
of_direction-code depix_to_lightning = refl
of_direction-code lightning_to_depix = refl

of_chain-code : (c : Chain) → of_chain (chain_code c) ≡ c
of_chain-code bitcoin_regtest = refl
of_chain-code liquid_regtest = refl

of_asset-code : (a : AssetId) → of_asset (asset_code a) ≡ a
of_asset-code native_bitcoin = refl
of_asset-code (explicit b) = refl

of_option-code : (t : Option Text) → of_option (option_code t) ≡ t
of_option-code none = refl
of_option-code (some t) = refl

abbrev first : Bytes → ℕ
first [] = 0
first (n ∷ _) = n

abbrev at : ℕ → List Bytes → Bytes
at n [] = []
at zero (b ∷ bs) = b
at (suc n) (b ∷ bs) = at n bs

abbrev fields : SwapRecoveryRecord → List Bytes
fields r =
    (r.version ∷ [])
    ∷ direction_code r.session.direction
    ∷ r.session.material.preimage
    ∷ r.session.material.hash_commitment
    ∷ r.session.material.claim_private_key
    ∷ r.session.material.claim_public_key
    ∷ r.session.material.refund_private_key
    ∷ r.session.material.refund_public_key
    ∷ r.session.material.destination_private_key
    ∷ r.session.material.destination_public_key
    ∷ asset_code r.session.asset_id
    ∷ asset_code r.session.fee_asset_id
    ∷ (r.session.amount_sats ∷ [])
    ∷ (r.session.asset_amount_sats ∷ [])
    ∷ (r.session.fee_sats ∷ [])
    ∷ (r.session.refund_lock_height ∷ [])
    ∷ option_code r.session.quote_id
    ∷ chain_code r.contract.chain
    ∷ asset_code r.contract.asset_id
    ∷ r.contract.hash_lock
    ∷ r.contract.claim_pubkey
    ∷ r.contract.refund_pubkey
    ∷ (r.contract.refund_lock_height ∷ [])
    ∷ r.contract.witness_script_hex
    ∷ r.contract.output_script_hex
    ∷ r.contract.address
    ∷ []

abbrev of_fields : List Bytes → SwapRecoveryRecord
of_fields l = record {
  version = first (at 0 l);
  session = record {
    direction = of_direction (at 1 l);
    material = record {
      preimage = at 2 l;
      hash_commitment = at 3 l;
      claim_private_key = at 4 l;
      claim_public_key = at 5 l;
      refund_private_key = at 6 l;
      refund_public_key = at 7 l;
      destination_private_key = at 8 l;
      destination_public_key = at 9 l;
    };
    asset_id = of_asset (at 10 l);
    fee_asset_id = of_asset (at 11 l);
    amount_sats = first (at 12 l);
    asset_amount_sats = first (at 13 l);
    fee_sats = first (at 14 l);
    refund_lock_height = first (at 15 l);
    quote_id = of_option (at 16 l);
  };
  contract = record {
    chain = of_chain (at 17 l);
    asset_id = of_asset (at 18 l);
    hash_lock = at 19 l;
    claim_pubkey = at 20 l;
    refund_pubkey = at 21 l;
    refund_lock_height = first (at 22 l);
    witness_script_hex = at 23 l;
    output_script_hex = at 24 l;
    address = at 25 l;
  };
}

of_fields-fields : (r : SwapRecoveryRecord) → of_fields (fields r) ≡ r
of_fields-fields r =
    rw
      (
        of_direction-code r.session.direction,
        of_asset-code r.session.asset_id,
        of_asset-code r.session.fee_asset_id,
        of_option-code r.session.quote_id,
        of_chain-code r.contract.chain,
        of_asset-code r.contract.asset_id,
      )
      refl

abbrev of_lines : List Bytes → RecoveryEnvelope
of_lines l = record { version = first (at 0 l); nonce = at 1 l; ciphertext = at 2 l }

abbrev sealing : Sealing
sealing = record {
  envelope_to_json = λ e. written ((e.version ∷ []) ∷ e.nonce ∷ e.ciphertext ∷ []);
  envelope_from_json = λ t. some (of_lines (read_back t));
  record_to_json = λ r. written (fields r);
  record_from_json = λ b. some (of_fields (read_back b));
  base64_encode = λ b. b;
  base64_decode = λ t. some t;
  encrypt = λ key nonce text. some text;
  decrypt = λ key nonce cipher. some cipher;
}

plain_laws : PrimitiveLaws plain
plain_laws = record { decode_encode = λ b. refl }

sealing_laws : SealingLaws sealing
sealing_laws = record {
  envelope_read = λ e. rw (read_back-line ((e.version ∷ []) ∷ e.nonce ∷ e.ciphertext ∷ [])) refl;
  record_read = λ r. rw (read_back-written (fields r), of_fields-fields r) refl;
  base64_read = λ b. refl;
  decrypted = λ key nonce text cipher h. cc;
}

abbrev working : Faults
working = record {
  on_read = none;
  on_parent = none;
  on_create = none;
  on_write = none;
  on_sync = none;
}

abbrev secrets : Secrets
secrets = record {
  preimage = secret;
  claim_secret = codes "c";
  claim_public = codes "c";
  refund_secret = codes "r";
  refund_public = codes "r";
  destination_secret = codes "d";
  destination_public = codes "d";
}

abbrev nonce : Bytes
nonce = codes "123456789012"

prepare_or_load_recovery_kept_example :
    (prepare_or_load_recovery plain sealing scripts keys working
      (codes "k")
      request
      secrets
      nonce
      (λ f. some (codes "other"))
      none).1
    ≡ some (codes "other")
prepare_or_load_recovery_kept_example =
    prepare_or_load_recovery_kept plain sealing scripts keys working (codes "k") request secrets
      nonce (λ f. some (codes "other")) none (codes "other") refl (inr (refl, refl, refl))

abbrev prepared : SwapResult (SwapRecoveryRecord × Bool) × File
prepared =
    prepare_or_load_recovery plain sealing scripts keys working (codes "k") request secrets nonce
      (λ f. f) none

is_prepared : prepared.0 ≡ ok (stored, false)
unfolding prepare_or_load_recovery read_recovery read_file prepare_new new_record request_material
    make_contract create_htlc_contract validate_asset build_htlc_witness_script validate_lock_height
    contract_address validate_material validate_key_pair write_recovery create_new write_new seal
    text_eq
is_prepared = refl

prepare_or_load_recovery_replays_example :
    prepare_or_load_recovery plain sealing scripts keys working
      (codes "k")
      request
      secrets
      (codes "210987654321")
      (λ f. f)
      prepared.1
    ≡ (ok (stored, true), prepared.1)
prepare_or_load_recovery_replays_example =
    prepare_or_load_recovery_replays plain sealing scripts keys plain_laws sealing_laws working
      working (codes "k") request secrets secrets nonce (codes "210987654321") (λ f. f) none stored
      false refl refl is_prepared
