-- ===== src/Swaps/Recovery/WriteOnce.antt =====
-- A recovery file is written once.
use cross_network_market_mak.Prelude.{
  ◌≡◌, ◌⊎◌, refl, ◌∙◌, Bool, false, none, some, ok, err, Bool-cases, Option-cases, Result-cases,
  inl, inr,
}
use cross_network_market_mak.Prelude.Outcome.{◌>>◌}
use cross_network_market_mak.Prelude.Text.{Text}
use cross_network_market_mak.Core.Primitives.{Primitives, Bytes}
use cross_network_market_mak.Chain.Contract.{ScriptCrates}
use cross_network_market_mak.Swaps.Error.{SwapResult}
use cross_network_market_mak.Swaps.Recovery.{SwapRecoveryRecord}
use cross_network_market_mak.Swaps.Recovery.Checks.{
  KeyCrate, PrepareRecoveryRequest, Secrets, is_vacant, request_material, new_record,
}
use cross_network_market_mak.Swaps.Recovery.Files.{
  Sealing, Faults, File, fail_on, read_file, read_recovery, seal, create_new, write_recovery,
  with_record, prepare_new, prepare_or_load_recovery,
}

module _ (p : Primitives) (c : Sealing) (s : ScriptCrates) (k : KeyCrate) where
  -- An existing file is not written.
  write_recovery_kept :
      (faults : Faults) (key nonce : Bytes) (r : SwapRecoveryRecord) (t : Text)
      → (write_recovery p c faults key nonce r (some t)).1 ≡ some t
  unfolding write_recovery create_new
  write_recovery_kept faults key nonce r t =
      elim (Result-cases (fail_on faults.on_parent >> seal p c key nonce r)) [
        | inl (text, sealed) ↦ rw (sealed, write_recovery) refl
        | inr (e, failed) ↦ rw (failed, write_recovery) refl
      ]

  read_missing :
      (faults : Faults) (key : Bytes) (file : File)
      → faults.on_read ≡ none
      → file ≡ none
      → read_recovery p c faults key file ≡ ok none
  unfolding read_recovery read_file
  read_missing faults key file e m = rw (e, m) refl

  with_record_file :
      (r : SwapRecoveryRecord) (m : SwapResult Bool × File) → (with_record p c s k r m).1 ≡ m.1
  with_record_file r (ok b, f) = refl
  with_record_file r (err e, f) = refl

  prepare_new_kept :
      (faults : Faults) (key nonce : Bytes) (r : SwapResult SwapRecoveryRecord) (t : Text)
      → (prepare_new p c s k faults key nonce r (some t)).1 ≡ some t
  unfolding prepare_new
  prepare_new_kept faults key nonce (err e) t = refl
  prepare_new_kept faults key nonce (ok r) t =
      with_record_file r (write_recovery p c faults key nonce r (some t))
      ∙ write_recovery_kept faults key nonce r t

  -- A recovery file is never overwritten: if it exists and no other process changes it, or another
  -- process creates it after it was found missing, it is afterwards as it was, whatever the request, the
  -- key and the faults.
  pub prepare_or_load_recovery_kept :
      (faults : Faults) (key : Bytes) (q : PrepareRecoveryRequest) (secrets : Secrets)
      (nonce : Bytes) (other : File → File) (file : File) (t : Text)
      → other file ≡ some t
      → (file ≡ some t) ⊎ ((file ≡ none) × (faults.on_read ≡ none) × (is_vacant p s k q ≡ false))
      → (prepare_or_load_recovery p c s k faults key q secrets nonce other file).1 ≡ some t
  unfolding prepare_or_load_recovery
  prepare_or_load_recovery_kept faults key q secrets nonce other file t h (inl e) =
      let r = new_record p s k q (request_material p s k q secrets) in
      elim (Bool-cases (is_vacant p s k q)) [
        | inl vacant ↦ rw vacant e
        | inr full ↦ elim (Result-cases (read_recovery p c faults key file)) [
          | inr (x, bad) ↦ rw (full, bad) e
          | inl (found, read) ↦ elim (Option-cases found) [
            | inl missing ↦ rw (full, read, missing, h) (prepare_new_kept faults key nonce r t)
            | inr (x, present) ↦ rw (full, read, present) e
          ]
        ]
      ]
  prepare_or_load_recovery_kept faults key q secrets nonce other file t h (inr (e, ok_read, full)) =
      rw (full, read_missing faults key file ok_read e, h)
        (prepare_new_kept faults key nonce (new_record p s k q (request_material p s k q secrets))
          t)
