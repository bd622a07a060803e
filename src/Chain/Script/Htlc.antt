-- ===== src/Chain/Script/Htlc.antt =====
-- The witness script of src/chain/htlc_script.rs is a hash and time lock.
use cross_network_market_mak.Prelude.{
  ℕ, ◌≡◌, ◌<◌, refl, length, Bool, true, false, not, ◌&&◌, [], ◌∷◌, ok, arith, Bool-cases, inl, inr,
  leb, ltb, ◌==◌,
}
use cross_network_market_mak.Prelude.Text.{text_eq, text_eq_iff}
use cross_network_market_mak.Core.Primitives.{Bytes}
use cross_network_market_mak.Chain.Script.{Script, htlc_instructions, build_htlc_witness_script}
use cross_network_market_mak.Chain.Script.Consensus.{
  Spender, SpenderLaws, Stack, cast_to_bool, truth, execute, run, accepts,
}

-- Spending with a true selector, a preimage of 32 bytes that has the hash, and a signature of the
-- claim key; or with a false selector and a signature of the refund key, once the transaction is
-- locked to the refund height or later.
abbrev pub unlocks : Spender → Bytes → Bytes → Bytes → ℕ → Stack → Bool
unlocks t hash claim_key refund_key height (selector ∷ preimage ∷ sig ∷ []) =
    cast_to_bool selector
    && length preimage == 32
    && text_eq (t.sha256 preimage) hash
    && t.checksig sig claim_key
unlocks t hash claim_key refund_key height (selector ∷ sig ∷ []) =
    not (cast_to_bool selector)
    && not t.is_final
    && leb height t.lock_time
    && ltb t.lock_time 500000000
    && t.checksig sig refund_key
unlocks t hash claim_key refund_key height _ = false

text_eq_comm : (a b : Bytes) → text_eq a b ≡ text_eq b a
unfolding text_eq
text_eq_comm [] [] = refl
text_eq_comm [] (d ∷ b) = refl
text_eq_comm (c ∷ a) [] = refl
text_eq_comm (c ∷ a) (d ∷ b) = ground (arith, text_eq_comm a b)

truth_cast : (b : Bool) → cast_to_bool (truth b) ≡ b
truth_cast true = refl
truth_cast false = refl

build_htlc_witness_script-ok :
    (hash claim_key refund_key : Bytes) (height : ℕ) (s : Script)
    → build_htlc_witness_script hash claim_key refund_key height ≡ ok s
    → (s ≡ htlc_instructions hash claim_key refund_key height) × (height < 500000000)
unfolding build_htlc_witness_script
build_htlc_witness_script-ok hash claim_key refund_key height s h = ground arith

module _ (t : Spender) (l : SpenderLaws t) where
  -- Two numbers are the same if their encodings are.
  script_num-eq : (m n : ℕ) → text_eq (t.script_num m) (t.script_num n) ≡ (m == n)
  script_num-eq m n = ground (
    arith,
    text_eq_iff (t.script_num m) (t.script_num n),
    l.read-script_num m,
    l.read-script_num n,
  )

  htlc_accepts :
      (hash claim_key refund_key : Bytes) (height : ℕ) (stack : Stack)
      → height < 500000000
      → accepts t (htlc_instructions hash claim_key refund_key height) stack
        ≡ unlocks t hash claim_key refund_key height stack
  unfolding accepts run execute
  htlc_accepts hash claim_key refund_key height [] b = refl
  htlc_accepts hash claim_key refund_key height (selector ∷ []) b =
      elim (Bool-cases (cast_to_bool selector)) [
        | inl e ↦ rw e refl
        | inr e ↦ rw e (ground (arith, l.read-script_num height))
      ]
  htlc_accepts hash claim_key refund_key height (selector ∷ x ∷ []) b =
      elim (Bool-cases (cast_to_bool selector)) [
        | inl e ↦ rw e (
            ground (
              arith,
              script_num-eq 32 (length x),
              text_eq_comm hash (t.sha256 x),
              truth_cast (t.checksig x claim_key),
            ))
        | inr e ↦
            rw e (ground (arith, l.read-script_num height, truth_cast (t.checksig x refund_key)))
      ]
  htlc_accepts hash claim_key refund_key height (selector ∷ x ∷ y ∷ []) b =
      elim (Bool-cases (cast_to_bool selector)) [
        | inl e ↦ rw e (
            ground (
              arith,
              script_num-eq 32 (length x),
              text_eq_comm hash (t.sha256 x),
              truth_cast (t.checksig y claim_key),
            ))
        | inr e ↦
            rw e (ground (arith, l.read-script_num height, truth_cast (t.checksig x refund_key)))
      ]
  htlc_accepts hash claim_key refund_key height (selector ∷ x ∷ y ∷ z ∷ stack) b =
      elim (Bool-cases (cast_to_bool selector)) [
        | inl e ↦ rw e (
            ground (
              arith,
              script_num-eq 32 (length x),
              text_eq_comm hash (t.sha256 x),
              truth_cast (t.checksig y claim_key),
            ))
        | inr e ↦
            rw e (ground (arith, l.read-script_num height, truth_cast (t.checksig x refund_key)))
      ]

  -- A script that is built is a hash and time lock: whatever is on the stack, the consensus rules
  -- accept it exactly for a true selector with a preimage of 32 bytes that has the hash and a signature
  -- of the claim key, or for a false selector with a signature of the refund key in a transaction that
  -- is locked to the refund height or a later one.
  pub build_htlc_witness_script-accepts :
      (hash claim_key refund_key : Bytes) (height : ℕ) (s : Script) (stack : Stack)
      → build_htlc_witness_script hash claim_key refund_key height ≡ ok s
      → accepts t s stack ≡ unlocks t hash claim_key refund_key height stack
  build_htlc_witness_script-accepts hash claim_key refund_key height s stack h =
      let e = build_htlc_witness_script-ok hash claim_key refund_key height s h in
      rw e.0 (htlc_accepts hash claim_key refund_key height stack e.1)
