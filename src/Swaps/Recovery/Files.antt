-- ===== src/Swaps/Recovery/Files.antt =====
-- src/swaps/recovery.rs: the encrypted recovery file. Between a read and a write another process may
-- change the file; what the operating system refuses is an argument.
use cross_network_market_mak.Prelude.{
  ℕ, ◌==◌, length, not, Bool, true, false, Option, none, some, ◌++◌, ◌∷◌, [], ok, err, ok_or,
  reject_if, if◌then◌else◌, Result,
}
use cross_network_market_mak.Prelude.Outcome.{◌>>=◌, ◌>>◌}
use cross_network_market_mak.Prelude.Text.{Text}
use cross_network_market_mak.Core.Primitives.{Primitives, Bytes}
use cross_network_market_mak.Chain.Contract.{ScriptCrates}
use cross_network_market_mak.Swaps.Error.{
  SwapError, SwapResult, invalid_input, durability, recovery_mismatch,
}
use cross_network_market_mak.Swaps.Recovery.{SwapRecoveryRecord, record_eq}
use cross_network_market_mak.Swaps.Recovery.Checks.{
  KeyCrate, PrepareRecoveryRequest, Secrets, is_vacant, validate_recovery, request_material,
  new_record,
}

pub record RecoveryEnvelope : Type 0 where
  pub version : ℕ
  pub nonce : Text
  pub ciphertext : Text

-- JSON, base64 and AES-256-GCM; a key always has 32 bytes.
pub record Sealing : Type 0 where
  pub envelope_to_json : RecoveryEnvelope → Text
  pub envelope_from_json : Text → Option RecoveryEnvelope
  pub record_to_json : SwapRecoveryRecord → Bytes
  pub record_from_json : Bytes → Option SwapRecoveryRecord
  pub base64_encode : Bytes → Text
  pub base64_decode : Text → Option Bytes
  pub encrypt : Bytes → Bytes → Bytes → Option Bytes
  pub decrypt : Bytes → Bytes → Bytes → Option Bytes

-- What goes wrong with the file: on reading it, on making its directory, on creating it, on writing
-- (then this much was written), and after writing.
pub record Faults : Type 0 where
  pub on_read : Option SwapError
  pub on_parent : Option SwapError
  pub on_create : Option SwapError
  pub on_write : Option (SwapError × Text)
  pub on_sync : Option SwapError

abbrev pub File : Type 0
File = Option Text

-- An error that is there is returned.
abbrev pub fail_on {ℓ} : {E : Type ℓ} → Option E → Result E (Unit {0})
fail_on none = ok tt
fail_on (some e) = err e

module _ (p : Primitives) (c : Sealing) where
  unfoldable pub unseal : Bytes → Text → SwapResult SwapRecoveryRecord
  unseal key serialized = do
    envelope ←
        ok_or (c.envelope_from_json serialized) (durability "invalid recovery envelope: {error}")
    nonce ← ok_or (p.hex_decode envelope.nonce) (durability "invalid recovery nonce")
    reject_if (not (length nonce == 12)) (durability "invalid recovery nonce length")
    ciphertext ←
        ok_or (c.base64_decode envelope.ciphertext) (durability "invalid recovery ciphertext")
    plaintext ← ok_or (c.decrypt key nonce ciphertext) (durability "recovery decryption failed")
    ok_or (c.record_from_json plaintext) (durability "invalid recovery record: {error}")

  unfoldable pub read_file : Bytes → File → SwapResult (Option SwapRecoveryRecord)
  read_file key none = ok none
  read_file key (some serialized) = do r ← unseal key serialized; ok (some r)

  unfoldable pub read_recovery : Faults → Bytes → File → SwapResult (Option SwapRecoveryRecord)
  read_recovery faults key file = do fail_on faults.on_read; read_file key file

  -- The file's text: the envelope and a line break.
  unfoldable pub seal : Bytes → Bytes → SwapRecoveryRecord → SwapResult Text
  seal key nonce r = do
    ciphertext ←
        ok_or (c.encrypt key nonce (c.record_to_json r)) (durability "recovery encryption failed")
    ok (
        c.envelope_to_json (record {
          version = 1;
          nonce = p.hex_encode nonce;
          ciphertext = c.base64_encode ciphertext;
        })
        ++ b'\n' ∷ [])

  -- A file that exists is compared, never written.
  unfoldable pub compare_existing : Option SwapRecoveryRecord → SwapRecoveryRecord → SwapResult Bool
  compare_existing none r = err (durability "recovery disappeared")
  compare_existing (some existing) r =
      if record_eq existing r
      then ok true
      else err (recovery_mismatch "recovery record was mutated")

  unfoldable pub write_new :
      Option (SwapError × Text) → Option SwapError → Text → SwapResult Bool × File
  write_new (some (e, written)) sync text = (err e, some written)
  write_new none (some e) text = (err e, some text)
  write_new none none text = (ok false, some text)

  -- Exclusive creation of the file.
  unfoldable pub create_new :
      Faults → Bytes → SwapRecoveryRecord → Text → File → SwapResult Bool × File
  create_new faults key r text none = elim faults.on_create as (λ _. SwapResult Bool × File) [
    | some e ↦ (err e, none)
    | none ↦ write_new faults.on_write faults.on_sync text
  ]
  create_new faults key r text (some existing) = (
    read_recovery faults key (some existing) >>= λ found. compare_existing found r,
    some existing,
  )

  unfoldable pub write_recovery :
      Faults → Bytes → Bytes → SwapRecoveryRecord → File → SwapResult Bool × File
  write_recovery faults key nonce r file = elim (fail_on faults.on_parent >> seal key nonce r) [
    | err e ↦ (err e, file)
    | ok text ↦ create_new faults key r text file
  ]

  module _ (s : ScriptCrates) (k : KeyCrate) where
    abbrev pub with_record :
        SwapRecoveryRecord → SwapResult Bool × File → SwapResult (SwapRecoveryRecord × Bool) × File
    with_record r (ok replayed, file) = (ok (r, replayed), file)
    with_record r (err e, file) = (err e, file)

    -- `other` is what another process does to the file after it was read.
    unfoldable pub prepare_new :
        Faults
        → Bytes
        → Bytes
        → SwapResult SwapRecoveryRecord
        → File
        → SwapResult (SwapRecoveryRecord × Bool) × File
    prepare_new faults key nonce (err e) file = (err e, file)
    prepare_new faults key nonce (ok r) file =
        with_record r (write_recovery faults key nonce r file)

    unfoldable pub prepare_or_load_recovery :
        Faults
        → Bytes
        → PrepareRecoveryRequest
        → Secrets
        → Bytes
        → (File → File)
        → File
        → SwapResult (SwapRecoveryRecord × Bool) × File
    prepare_or_load_recovery faults key q secrets nonce other file =
        if is_vacant p s k q
        then (err (invalid_input "swap amounts and refund height must be positive"), file)
        else elim (read_recovery faults key file) [
          | err e ↦ (err e, file)
          | ok (some r) ↦ ((validate_recovery p s k r q >> ok (r, true)), file)
          | ok none ↦
              prepare_new faults key nonce (new_record p s k q (request_material p s k q secrets))
                (other file)
        ]
