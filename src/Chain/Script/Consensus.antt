-- ===== src/Chain/Script/Consensus.antt =====
-- What the consensus rules say of the instructions of src/chain/htlc_script.rs (BIP 65, BIP 141): the
-- specification that the witness script is held against. The top of the stack comes first.
use cross_network_market_mak.Prelude.{
  ℕ, ◌==◌, leb, ltb, length, all, Bool, true, false, not, ◌&&◌, ◌||◌, List, [], ◌∷◌, Option, none,
  some, ◌≡◌, if◌then◌else◌,
}
use cross_network_market_mak.Prelude.Text.{text_eq}
use cross_network_market_mak.Core.Primitives.{Bytes}
use cross_network_market_mak.Chain.Script.{
  op_if, op_else, op_endif, op_size, op_equalverify, op_sha256, op_checksig, op_cltv, op_drop,
  Instruction, opcode, push_int, push_slice, Script,
}

-- The spending transaction as the script sees it, and the encoding of script numbers.
pub record Spender : Type 0 where
  pub sha256 : Bytes → Bytes
  pub checksig : Bytes → Bytes → Bool
  pub lock_time : ℕ
  pub is_final : Bool
  pub script_num : ℕ → Bytes
  pub read_num : Bytes → Option ℕ

-- A number that was written is read back.
pub record SpenderLaws (t : Spender) : Type 0 where
  pub read-script_num : (n : ℕ) → t.read_num (t.script_num n) ≡ some n

-- Every byte zero, or a negative zero, is false.
abbrev pub cast_to_bool : Bytes → Bool
cast_to_bool [] = false
cast_to_bool (c ∷ []) = not (c == 0) && not (c == 0x80)
cast_to_bool (c ∷ d ∷ s) = not (c == 0) || cast_to_bool (d ∷ s)

abbrev pub Stack : Type 0
Stack = List Bytes

abbrev pub truth : Bool → Bytes
truth true = 1 ∷ []
truth false = []

module _ (t : Spender) where
  abbrev pub is_locked : Option ℕ → Bool
  is_locked none = true
  is_locked (some n) =
      t.is_final
      || not (leb n t.lock_time)
      || (ltb n 500000000 && not (ltb t.lock_time 500000000))
      || (not (ltb n 500000000) && ltb t.lock_time 500000000)

  -- An instruction other than a branch.
  unfoldable pub execute : Instruction → Stack → Option Stack
  execute (push_int n) stack = some (t.script_num n ∷ stack)
  execute (push_slice b) stack = some (b ∷ stack)
  execute (opcode op_size) (x ∷ stack) = some (t.script_num (length x) ∷ x ∷ stack)
  execute (opcode op_equalverify) (x ∷ y ∷ stack) = if text_eq x y then some stack else none
  execute (opcode op_sha256) (x ∷ stack) = some (t.sha256 x ∷ stack)
  execute (opcode op_checksig) (key ∷ sig ∷ stack) = some (truth (t.checksig sig key) ∷ stack)
  execute (opcode op_cltv) (x ∷ stack) = if is_locked (t.read_num x) then none else some (x ∷ stack)
  execute (opcode op_drop) (x ∷ stack) = some stack
  execute _ _ = none

  abbrev enter : Bool → (List Bool → Stack → Option Stack) → List Bool → Stack → Option Stack
  enter true k bs [] = none
  enter true k bs (x ∷ stack) = k (cast_to_bool x ∷ bs) stack
  enter false k bs stack = k (false ∷ bs) stack

  abbrev proceed : Bool → Option Stack → (Stack → Option Stack) → Stack → Option Stack
  proceed false next k stack = k stack
  proceed true none k stack = none
  proceed true (some next) k stack = k next

  abbrev leaves_true : Option Stack → Bool
  leaves_true (some (x ∷ [])) = cast_to_bool x
  leaves_true _ = false

  -- The branches that are open, innermost first: whether each is taken.
  unfoldable pub run : Script → List Bool → Stack → Option Stack
  run [] [] stack = some stack
  run [] (b ∷ bs) stack = none
  run (opcode op_else ∷ s) [] stack = none
  run (opcode op_else ∷ s) (b ∷ bs) stack = run s (not b ∷ bs) stack
  run (opcode op_endif ∷ s) [] stack = none
  run (opcode op_endif ∷ s) (b ∷ bs) stack = run s bs stack
  run (opcode op_if ∷ s) bs stack = enter (all (λ b. b) bs) (run s) bs stack
  run (i ∷ s) bs stack = proceed (all (λ b. b) bs) (execute i stack) (run s bs) stack

  -- A witness program leaves one true element.
  unfoldable pub accepts : Script → Stack → Bool
  accepts s stack = leaves_true (run s [] stack)
