-- ===== src/Chain/Contract/Laws.antt =====
-- A contract passes its check exactly if it is the one that its own terms make.
use cross_network_market_mak.Prelude.{
  ℕ, some, Option-cases, Result-cases, inl, inr, ◌≡◌, ◌↔◌, ◌≢◌, reject_if, ◌≤◌, ◌<◌, refl, not, ok,
  err, arith,
}
use cross_network_market_mak.Prelude.Outcome.{◌>>=◌, ◌>>◌}
use cross_network_market_mak.Core.Primitives.{Primitives, Bytes}
use cross_network_market_mak.Prelude.Text.{Text, text_eq_iff}
use cross_network_market_mak.Chain.Types.{
  ChainError, ChainResult, validation, Chain, bitcoin_regtest, liquid_regtest, AssetId,
  native_bitcoin, explicit, HtlcContract, contract_eq,
}
use cross_network_market_mak.Chain.Types.Laws.{contract_eq_iff}
use cross_network_market_mak.Chain.Script.{
  build_htlc_witness_script, htlc_instructions, validate_lock_height,
}
use cross_network_market_mak.Chain.Contract.{
  ScriptCrates, validate_asset, contract_address, create_htlc_contract, validate_htlc_contract,
}

abbrev compare_rebuilt :
    ChainResult HtlcContract → HtlcContract → ChainError → ChainResult (Unit {0})
compare_rebuilt r c e = do rebuilt ← r; reject_if (not (contract_eq rebuilt c)) e; ok tt

rebuilt_iff :
    (r : ChainResult HtlcContract) (c : HtlcContract) (e : ChainError)
    → (compare_rebuilt r c e ≡ ok tt) ↔ (r ≡ ok c)
rebuilt_iff (ok x) c e = ground (arith, contract_eq_iff x c)
rebuilt_iff (err x) c e = (λ h. cc, λ h. cc)

-- The asset is one of the chain.
abbrev pub Carries : Chain → AssetId → Type 0
Carries bitcoin_regtest a = a ≡ native_bitcoin
Carries liquid_regtest a = a ≢ native_bitcoin

validate_asset-Carries : (c : Chain) (a : AssetId) → validate_asset c a ≡ ok tt → Carries c a
unfolding validate_asset
validate_asset-Carries bitcoin_regtest native_bitcoin h = refl
validate_asset-Carries bitcoin_regtest (explicit b) h = cc
validate_asset-Carries liquid_regtest native_bitcoin h = cc
validate_asset-Carries liquid_regtest (explicit b) h = λ e. cc

Carries-validate_asset : (c : Chain) (a : AssetId) → Carries c a → validate_asset c a ≡ ok tt
unfolding validate_asset
Carries-validate_asset bitcoin_regtest native_bitcoin h = refl
Carries-validate_asset bitcoin_regtest (explicit b) h = absurd (cc)
Carries-validate_asset liquid_regtest native_bitcoin h = absurd (h refl)
Carries-validate_asset liquid_regtest (explicit b) h = refl

module _ (p : Primitives) (s : ScriptCrates) where
  abbrev pub contract_script : HtlcContract → Bytes
  contract_script c =
      s.as_bytes (htlc_instructions c.hash_lock c.claim_pubkey c.refund_pubkey c.refund_lock_height)

  -- The address of a witness script: on Liquid, that of the script as `elements` reads it, when its
  -- output script is the one of the contract.
  abbrev pub HasAddress : Chain → Bytes → Text → Type 0
  HasAddress bitcoin_regtest script address = address ≡ s.bitcoin_p2wsh script
  HasAddress liquid_regtest script address =
      (w : Bytes) × (s.elements_from_hex (p.hex_encode script) ≡ some w)
      × (s.elements_to_v0_p2wsh w ≡ s.to_p2wsh script)
      × (address ≡ s.elements_p2wsh w)

  -- What the fields of a contract are.
  pub record IsContract (c : HtlcContract) : Type 0 where
    pub carries : Carries c.chain c.asset_id
    pub positive : 1 ≤ c.refund_lock_height
    pub is_height : c.refund_lock_height < 500000000
    pub witness_script : c.witness_script_hex ≡ p.hex_encode (contract_script c)
    pub output_script : c.output_script_hex ≡ p.hex_encode (s.to_p2wsh (contract_script c))
    pub address : HasAddress c.chain (contract_script c) c.address

  contract_address_iff :
      (chain : Chain) (script : Bytes) (address : Text)
      → (contract_address p s chain script (s.to_p2wsh script) ≡ ok address)
        ↔ HasAddress chain script address
  unfolding contract_address
  contract_address_iff bitcoin_regtest script address = ground arith
  contract_address_iff liquid_regtest script address =
      elim (Option-cases (s.elements_from_hex (p.hex_encode script))) [
        | inl unread ↦ (λ h. absurd (ground (arith, unread)), λ (w, read, _, _). absurd (cc))
        | inr (w, read) ↦ (
          λ h. (
            w,
            read,
            ground (arith, read, text_eq_iff (s.elements_to_v0_p2wsh w) (s.to_p2wsh script)),
            ground (arith, read),
          ),
          λ (w', read', same, at). ground (
            arith,
            read,
            read',
            same,
            at,
            text_eq_iff (s.elements_to_v0_p2wsh w) (s.to_p2wsh script),
          ),
        )
      ]

  abbrev pub rebuild : HtlcContract → ChainResult HtlcContract
  rebuild c =
      create_htlc_contract p s c.chain c.asset_id c.hash_lock c.claim_pubkey c.refund_pubkey
        c.refund_lock_height

  -- A saved contract is accepted exactly when creating a contract from its own chain, asset, hash,
  -- keys and lock height gives that contract, its scripts and its address included.
  pub validate_htlc_contract-rebuild_iff :
      (c : HtlcContract) → (validate_htlc_contract p s c ≡ ok tt) ↔ (rebuild c ≡ ok c)
  unfolding validate_htlc_contract
  validate_htlc_contract-rebuild_iff c =
      rebuilt_iff (rebuild c) c
        (validation "saved HTLC metadata does not match its deterministic contract")

  -- A contract that is created is on the given terms, for an asset of its chain, with a refund height
  -- from 1 to below 500000000; its witness script is that of the hash, the keys and the height.
  pub create_htlc_contract-ok :
      (chain : Chain) (asset : AssetId) (hash claim_key refund_key : Bytes) (height : ℕ)
      (c : HtlcContract)
      → create_htlc_contract p s chain asset hash claim_key refund_key height ≡ ok c
      → (c.chain ≡ chain)
        × (c.asset_id ≡ asset)
        × (c.hash_lock ≡ hash)
        × (c.claim_pubkey ≡ claim_key)
        × (c.refund_pubkey ≡ refund_key)
        × (c.refund_lock_height ≡ height)
        × Carries chain asset
        × (1 ≤ height)
        × (height < 500000000)
        × (c.witness_script_hex
            ≡ p.hex_encode (s.as_bytes (htlc_instructions hash claim_key refund_key height)))
  unfolding create_htlc_contract build_htlc_witness_script validate_lock_height
  create_htlc_contract-ok chain asset hash claim_key refund_key height c h =
      ground (arith, validate_asset-Carries chain asset)

  -- A contract that was created passes the check of saved contracts.
  pub validate_htlc_contract-create_htlc_contract :
      (chain : Chain) (asset : AssetId) (hash claim_key refund_key : Bytes) (height : ℕ)
      (c : HtlcContract)
      → create_htlc_contract p s chain asset hash claim_key refund_key height ≡ ok c
      → validate_htlc_contract p s c ≡ ok tt
  validate_htlc_contract-create_htlc_contract chain asset hash claim_key refund_key height c h =
      let t = create_htlc_contract-ok chain asset hash claim_key refund_key height c h in
      (validate_htlc_contract-rebuild_iff c).1 (cc (t.0, t.1, t.2, t.3, t.4, t.5, h))

  rebuild-IsContract : (c : HtlcContract) → rebuild c ≡ ok c → IsContract c
  unfolding create_htlc_contract build_htlc_witness_script validate_lock_height
  rebuild-IsContract c h =
      let script = contract_script c in
      elim (Result-cases (contract_address p s c.chain script (s.to_p2wsh script))) [
        | inr (error, bad) ↦ absurd (ground (arith, bad))
        | inl (address, found) ↦
            let same : address ≡ c.address = ground (arith, found) in
            record {
              carries = validate_asset-Carries c.chain c.asset_id (ground arith);
              positive = ground arith;
              is_height = ground arith;
              witness_script = ground (arith, found);
              output_script = ground (arith, found);
              address = (contract_address_iff c.chain script c.address).0 (rw (← same) found);
            }
      ]

  IsContract-rebuild : (c : HtlcContract) → IsContract c → rebuild c ≡ ok c
  unfolding create_htlc_contract build_htlc_witness_script validate_lock_height
  IsContract-rebuild c k =
      let script = contract_script c in
      let asset = Carries-validate_asset c.chain c.asset_id k.carries in
      let address = (contract_address_iff c.chain script c.address).1 k.address in
      ground (arith, asset, address, k.positive, k.is_height, k.witness_script, k.output_script)

  -- A saved contract is accepted exactly when its asset is one of its chain, its refund height is from
  -- 1 to below 500000000, its witness script is the one of its hash, keys and height, its output script
  -- is the P2WSH of that script, and its address is the P2WSH address of that script on its chain; on
  -- Liquid, `elements` must read the script and make the same output script of it.
  pub validate_htlc_contract_iff :
      (c : HtlcContract) → (validate_htlc_contract p s c ≡ ok tt) ↔ IsContract c
  validate_htlc_contract_iff c =
      let rebuilds = validate_htlc_contract-rebuild_iff c in
      (λ h. rebuild-IsContract c (rebuilds.0 h), λ k. rebuilds.1 (IsContract-rebuild c k))
