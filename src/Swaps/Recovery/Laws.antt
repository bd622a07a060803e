-- ===== src/Swaps/Recovery/Laws.antt =====
-- A recovery record is accepted exactly if it is bound to the request and to its own key material.
use cross_network_market_mak.Prelude.{
  ℕ, ◌≡◌, ◌↔◌, refl, subst, false, not, Option, none, some, ok, err, ok_or, reject_if, arith,
  Result-cases, inl, inr, then-ok, reject_if-ok,
}
use cross_network_market_mak.Prelude.Outcome.{◌>>=◌, ◌>>◌}
use cross_network_market_mak.Prelude.Text.{text_eq, text_eq_iff}
use cross_network_market_mak.Core.Primitives.{Primitives, Bytes}
use cross_network_market_mak.Chain.Types.{ChainResult, HtlcContract, contract_eq}
use cross_network_market_mak.Chain.Types.Laws.{chain_eq_iff, asset_eq_iff, contract_eq_iff}
use cross_network_market_mak.Chain.Contract.{ScriptCrates}
use cross_network_market_mak.Chain.Contract.Laws.{create_htlc_contract-ok}
use cross_network_market_mak.Swaps.Error.{SwapResult, recovery_mismatch}
use cross_network_market_mak.Swaps.Recovery.{SwapKeyMaterial, SwapRecoveryRecord}
use cross_network_market_mak.Swaps.Recovery.Equality.{direction_eq_iff}
use cross_network_market_mak.Swaps.Recovery.Checks.{
  KeyCrate, PrepareRecoveryRequest, validate_key_pair, validate_material, differs, make_contract,
  validate_recovery, new_record, of_chain,
}

abbrev check_pair : Option Bytes → Bytes → SwapResult (Unit {0})
check_pair derived public = do
  key ← ok_or derived (recovery_mismatch "invalid private key")
  reject_if (not (text_eq key public)) (recovery_mismatch "private/public key mismatch")
  ok tt

pair_iff : (o : Option Bytes) (public : Bytes) → (check_pair o public ≡ ok tt) ↔ (o ≡ some public)
pair_iff none public = (λ h. cc, λ h. cc)
pair_iff (some key) public = ground (arith, text_eq_iff key public)

of_chain-ok : (r : ChainResult HtlcContract) (c : HtlcContract) → of_chain r ≡ ok c → r ≡ ok c
of_chain-ok (ok x) c h = cc
of_chain-ok (err e) c h = cc

abbrev check_contract : SwapResult HtlcContract → HtlcContract → SwapResult (Unit {0})
check_contract made contract = do
  expected ← made
  reject_if (not (contract_eq expected contract)) (recovery_mismatch "contract metadata differs")
  ok tt

check_contract_iff :
    (made : SwapResult HtlcContract) (c : HtlcContract)
    → (check_contract made c ≡ ok tt) ↔ (made ≡ ok c)
check_contract_iff (err e) c = (λ h. cc, λ h. cc)
check_contract_iff (ok x) c = ground (arith, contract_eq_iff x c)

module _ (p : Primitives) (s : ScriptCrates) (k : KeyCrate) where
  -- The key material: the commitment is the hash of the preimage, and each public key is that of its
  -- private key.
  pub record IsMaterial (m : SwapKeyMaterial) : Type 0 where
    pub commitment : p.sha256 m.preimage ≡ m.hash_commitment
    pub claim_pair : k.public_key m.claim_private_key ≡ some m.claim_public_key
    pub refund_pair : k.public_key m.refund_private_key ≡ some m.refund_public_key
    pub destination_pair : k.public_key m.destination_private_key ≡ some m.destination_public_key

  validate_key_pair_iff :
      (private public : Bytes)
      → (validate_key_pair p s k private public ≡ ok tt) ↔ (k.public_key private ≡ some public)
  unfolding validate_key_pair
  validate_key_pair_iff private public = pair_iff (k.public_key private) public

  hashed :
      (m : SwapKeyMaterial)
      → not (text_eq (p.sha256 m.preimage) m.hash_commitment) ≡ false
      → p.sha256 m.preimage ≡ m.hash_commitment
  hashed m h = ground (arith, text_eq_iff (p.sha256 m.preimage) m.hash_commitment)

  validate_material_iff : (m : SwapKeyMaterial) → (validate_material p s k m ≡ ok tt) ↔ IsMaterial m
  unfolding validate_material
  validate_material_iff m = (
    λ h.
        let a = then-ok _ _ tt h in
        let b = then-ok _ _ tt a.1 in
        let c = then-ok _ _ tt b.1 in
        record {
          commitment = hashed m (reject_if-ok _ _ a.0);
          claim_pair = (validate_key_pair_iff _ _).0 b.0;
          refund_pair = (validate_key_pair_iff _ _).0 c.0;
          destination_pair = (validate_key_pair_iff _ _).0 c.1;
        },
    λ i.
        rw
          (
            (text_eq_iff (p.sha256 m.preimage) m.hash_commitment).1 i.commitment,
            (validate_key_pair_iff m.claim_private_key m.claim_public_key).1 i.claim_pair,
            (validate_key_pair_iff m.refund_private_key m.refund_public_key).1 i.refund_pair,
            (validate_key_pair_iff m.destination_private_key m.destination_public_key).1
                i.destination_pair,
          )
          refl,
  )

  -- The terms of the request, and the contract that the material makes with them.
  pub record IsBound (r : SwapRecoveryRecord) (q : PrepareRecoveryRequest) : Type 0 where
    pub version : r.version ≡ 1
    pub direction : r.session.direction ≡ q.direction
    pub asset : r.session.asset_id ≡ q.asset_id
    pub fee_asset : r.session.fee_asset_id ≡ q.fee_asset_id
    pub amount : r.session.amount_sats ≡ q.amount_sats
    pub asset_amount : r.session.asset_amount_sats ≡ q.asset_amount_sats
    pub fee : r.session.fee_sats ≡ q.fee_sats
    pub material : IsMaterial r.session.material
    pub contract :
        make_contract p s k q r.session.material r.session.refund_lock_height ≡ ok r.contract

  make_contract-ok :
      (q : PrepareRecoveryRequest) (m : SwapKeyMaterial) (height : ℕ) (c : HtlcContract)
      → make_contract p s k q m height ≡ ok c
      → (c.chain ≡ q.chain) × (c.asset_id ≡ q.asset_id)
  unfolding make_contract
  make_contract-ok q m height c h =
      let t =
        create_htlc_contract-ok p s q.chain q.asset_id m.hash_commitment m.claim_public_key
          m.refund_public_key height c (of_chain-ok _ c h) in
      (t.0, t.1)

  same_terms :
      (r : SwapRecoveryRecord) (q : PrepareRecoveryRequest)
      → differs p s k r q ≡ false
      → (r.version ≡ 1)
        × (r.session.direction ≡ q.direction)
        × (r.session.asset_id ≡ q.asset_id)
        × (r.session.fee_asset_id ≡ q.fee_asset_id)
        × (r.session.amount_sats ≡ q.amount_sats)
        × (r.session.asset_amount_sats ≡ q.asset_amount_sats)
        × (r.session.fee_sats ≡ q.fee_sats)
  same_terms r q h = ground (
    arith,
    direction_eq_iff r.session.direction q.direction,
    asset_eq_iff r.session.asset_id q.asset_id,
    asset_eq_iff r.session.fee_asset_id q.fee_asset_id,
  )

  IsBound-same_terms :
      (r : SwapRecoveryRecord) (q : PrepareRecoveryRequest)
      → IsBound r q
      → differs p s k r q ≡ false
  IsBound-same_terms r q b =
      let c =
        make_contract-ok q r.session.material r.session.refund_lock_height r.contract b.contract in
      ground (
        arith,
        direction_eq_iff r.session.direction q.direction,
        asset_eq_iff r.session.asset_id q.asset_id,
        asset_eq_iff r.session.fee_asset_id q.fee_asset_id,
        chain_eq_iff r.contract.chain q.chain,
        asset_eq_iff r.contract.asset_id q.asset_id,
        c.0,
        c.1,
      )

  -- A stored record is accepted for a request exactly when it is of version 1, has the direction, assets,
  -- amounts and fee of the request, its key material is consistent, and its contract is the one that the
  -- chain and asset of the request make with that material and the stored refund height.
  pub validate_recovery_iff :
      (r : SwapRecoveryRecord) (q : PrepareRecoveryRequest)
      → (validate_recovery p s k r q ≡ ok tt) ↔ IsBound r q
  unfolding validate_recovery
  validate_recovery_iff r q = (
    λ h.
        let a = then-ok _ _ tt h in
        let b = then-ok _ _ tt a.1 in
        let t = same_terms r q (reject_if-ok _ _ a.0) in
        record {
          version = t.0;
          direction = t.1;
          asset = t.2;
          fee_asset = t.3;
          amount = t.4;
          asset_amount = t.5;
          fee = t.6;
          material = (validate_material_iff r.session.material).0 b.0;
          contract =
              (check_contract_iff
                  (make_contract p s k q r.session.material r.session.refund_lock_height)
                  r.contract).0
                b.1;
        },
    λ i.
        rw (IsBound-same_terms r q i, (validate_material_iff r.session.material).1 i.material)
          ((check_contract_iff
              (make_contract p s k q r.session.material r.session.refund_lock_height) r.contract).1
            i.contract),
  )

  abbrev record_of : PrepareRecoveryRequest → SwapKeyMaterial → HtlcContract → SwapRecoveryRecord
  record_of q m c = record {
    version = 1;
    session = record {
      direction = q.direction;
      material = m;
      asset_id = q.asset_id;
      fee_asset_id = q.fee_asset_id;
      amount_sats = q.amount_sats;
      asset_amount_sats = q.asset_amount_sats;
      fee_sats = q.fee_sats;
      refund_lock_height = q.refund_lock_height;
      quote_id = q.quote_id;
    };
    contract = c;
  }

  pub new_record-IsBound :
      (q : PrepareRecoveryRequest) (m : SwapKeyMaterial) (r : SwapRecoveryRecord)
      → new_record p s k q m ≡ ok r
      → IsBound r q
  unfolding new_record
  new_record-IsBound q m r h =
      let a = then-ok _ _ r h in
      elim (Result-cases (make_contract p s k q m q.refund_lock_height)) [
        | inr (e, bad) ↦ absurd (ground arith)
        | inl (c, made) ↦
            let m_ok = (validate_material_iff m).0 a.0 in
            let same : record_of q m c ≡ r = ground arith in
            subst (λ (x : SwapRecoveryRecord). IsBound x q) same
              (record {
                version = refl;
                direction = refl;
                asset = refl;
                fee_asset = refl;
                amount = refl;
                asset_amount = refl;
                fee = refl;
                material = m_ok;
                contract = made;
              })
      ]
