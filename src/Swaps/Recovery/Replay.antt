-- ===== src/Swaps/Recovery/Replay.antt =====
-- What was prepared is what is on disk, and is read back.
use cross_network_market_mak.Prelude.{
  length, ◌≡◌, refl, sym, ap, subst, ◌∙◌, Bool, true, false, none, some, ◌++◌, ◌∷◌, [], ok, err,
  arith, Bool-cases, Option-cases, Result-cases, inl, inr, then-ok,
}
use cross_network_market_mak.Prelude.Outcome.{◌>>◌}
use cross_network_market_mak.Prelude.Text.{Text}
use cross_network_market_mak.Core.Primitives.{Primitives, PrimitiveLaws, Bytes}
use cross_network_market_mak.Chain.Contract.{ScriptCrates}
use cross_network_market_mak.Swaps.Error.{SwapError, SwapResult}
use cross_network_market_mak.Swaps.Recovery.{SwapRecoveryRecord, record_eq}
use cross_network_market_mak.Swaps.Recovery.Checks.{
  KeyCrate, PrepareRecoveryRequest, Secrets, is_vacant, validate_recovery, request_material,
  new_record,
}
use cross_network_market_mak.Swaps.Recovery.Laws.{
  IsBound, validate_recovery_iff, new_record-IsBound,
}
use cross_network_market_mak.Swaps.Recovery.Equality.{record_eq-true}
use cross_network_market_mak.Swaps.Recovery.Files.{
  RecoveryEnvelope, Sealing, Faults, File, fail_on, unseal, read_file, read_recovery, seal,
  compare_existing, write_new, create_new, write_recovery, with_record, prepare_new,
  prepare_or_load_recovery,
}

pub record SealingLaws (c : Sealing) : Type 0 where
  pub envelope_read :
      (e : RecoveryEnvelope) → c.envelope_from_json (c.envelope_to_json e ++ b'\n' ∷ []) ≡ some e
  pub record_read : (r : SwapRecoveryRecord) → c.record_from_json (c.record_to_json r) ≡ some r
  pub base64_read : (b : Bytes) → c.base64_decode (c.base64_encode b) ≡ some b
  pub decrypted :
      (key nonce plain cipher : Bytes)
      → c.encrypt key nonce plain ≡ some cipher
      → c.decrypt key nonce cipher ≡ some plain

module _ (p : Primitives) (c : Sealing) (s : ScriptCrates) (k : KeyCrate) where
  -- What is on disk is the record.
  abbrev pub Holds : Bytes → SwapRecoveryRecord → File → Type 0
  Holds key r file = read_file p c key file ≡ ok (some r)

  read_recovery-Holds :
      (faults : Faults) (key : Bytes) (file : File) (r : SwapRecoveryRecord)
      → read_recovery p c faults key file ≡ ok (some r)
      → Holds key r file
  unfolding read_recovery
  read_recovery-Holds faults key file r h = (then-ok (fail_on faults.on_read) _ (some r) h).1

  seal-Holds :
      (laws : PrimitiveLaws p) (sealing : SealingLaws c) (key nonce : Bytes)
      (r : SwapRecoveryRecord) (t : Text)
      → length nonce ≡ 12
      → seal p c key nonce r ≡ ok t
      → Holds key r (some t)
  unfolding seal read_file unseal
  seal-Holds laws sealing key nonce r t hn h =
      elim (Option-cases (c.encrypt key nonce (c.record_to_json r))) [
        | inl bad ↦ absurd (ground arith)
        | inr (cipher, sealed) ↦
            let e : RecoveryEnvelope = record {
              version = 1;
              nonce = p.hex_encode nonce;
              ciphertext = c.base64_encode cipher;
            } in
            let text : c.envelope_to_json e ++ b'\n' ∷ [] ≡ t = ground arith in
            rw
              (
                ← text,
                sealing.envelope_read e,
                laws.decode_encode nonce,
                hn,
                sealing.base64_read cipher,
                sealing.decrypted key nonce (c.record_to_json r) cipher sealed,
                sealing.record_read r,
              )
              refl
      ]

  abbrev validated_record :
      SwapRecoveryRecord → PrepareRecoveryRequest → SwapResult (SwapRecoveryRecord × Bool)
  validated_record x q = validate_recovery p s k x q >> ok (x, true)

  validated :
      (x : SwapRecoveryRecord) (q : PrepareRecoveryRequest) (r : SwapRecoveryRecord) (b : Bool)
      → validated_record x q ≡ ok (r, b)
      → (validate_recovery p s k x q ≡ ok tt) × (x ≡ r)
  validated x q r b h =
      let v = then-ok (validate_recovery p s k x q) _ _ h in (v.0, ground (arith, v.1))

  unsealed :
      (faults : Faults) (key nonce : Bytes) (r : SwapRecoveryRecord) (file : File) (b : Bool)
      (e : SwapError)
      → fail_on faults.on_parent >> seal p c key nonce r ≡ err e
      → (write_recovery p c faults key nonce r file).0 ≡ ok b
      → ⊥
  unfolding write_recovery
  unsealed faults key nonce r file b e bad h = ground arith

  -- A record on disk that is bound to a request is loaded for it.
  loads_held :
      (faults : Faults) (key : Bytes) (q : PrepareRecoveryRequest) (secrets : Secrets)
      (nonce : Bytes) (file : File) (r : SwapRecoveryRecord)
      → faults.on_read ≡ none
      → is_vacant p s k q ≡ false
      → IsBound p s k r q
      → Holds key r file
      → prepare_or_load_recovery p c s k faults key q secrets nonce (λ f. f) file
        ≡ (ok (r, true), file)
  unfolding prepare_or_load_recovery read_recovery
  loads_held faults key q secrets nonce file r hr full bound holds =
      rw (full, hr, holds, (validate_recovery_iff p s k r q).1 bound) refl

  module _ (laws : PrimitiveLaws p) (sealing : SealingLaws c) where
    -- A file that was created or compared holds the record.
    create_new-Holds :
        (faults : Faults) (key nonce : Bytes) (r : SwapRecoveryRecord) (t : Text) (file : File)
        (b : Bool)
        → length nonce ≡ 12
        → seal p c key nonce r ≡ ok t
        → (create_new p c faults key r t file).0 ≡ ok b
        → Holds key r (create_new p c faults key r t file).1
    unfolding create_new write_new compare_existing
    create_new-Holds faults key nonce r t none b hn sealed h =
        elim (Option-cases faults.on_create) [
          | inr (e, bad) ↦ absurd (ground arith)
          | inl can ↦ elim (Option-cases faults.on_write) [
            | inr ((e, x), bad) ↦ absurd (ground arith)
            | inl wrote ↦ elim (Option-cases faults.on_sync) [
              | inr (e, bad) ↦ absurd (ground arith)
              | inl synced ↦
                  rw (can, wrote, synced, write_new)
                    (seal-Holds laws sealing key nonce r t hn sealed)
            ]
          ]
        ]
    create_new-Holds faults key nonce r t (some existing) b hn sealed h =
        elim (Result-cases (read_recovery p c faults key (some existing))) [
          | inr (e, bad) ↦ absurd (ground arith)
          | inl (found, read) ↦ elim (Option-cases found) [
            | inl missing ↦ absurd (ground arith)
            | inr (x, present) ↦ elim (Bool-cases (record_eq x r)) [
              | inr other ↦ absurd (ground arith)
              | inl same ↦
                  rw (← record_eq-true x r same)
                    (read_recovery-Holds faults key (some existing) x (read ∙ ap ok present))
            ]
          ]
        ]

    sealed_write :
        (faults : Faults) (key nonce : Bytes) (r : SwapRecoveryRecord) (file : File) (t : Text)
        → fail_on faults.on_parent >> seal p c key nonce r ≡ ok t
        → write_recovery p c faults key nonce r file ≡ create_new p c faults key r t file
    unfolding write_recovery
    sealed_write faults key nonce r file t h = rw (h, write_recovery) refl

    write_recovery-Holds :
        (faults : Faults) (key nonce : Bytes) (r : SwapRecoveryRecord) (file : File) (b : Bool)
        → length nonce ≡ 12
        → (write_recovery p c faults key nonce r file).0 ≡ ok b
        → Holds key r (write_recovery p c faults key nonce r file).1
    write_recovery-Holds faults key nonce r file b hn h =
        elim (Result-cases (fail_on faults.on_parent >> seal p c key nonce r)) [
          | inr (e, bad) ↦ absurd (unsealed faults key nonce r file b e bad h)
          | inl (t, sealed) ↦
              let same = sealed_write faults key nonce r file t sealed in
              let done = then-ok (fail_on faults.on_parent) (seal p c key nonce r) t sealed in
              subst (λ (m : SwapResult Bool × File). Holds key r m.1) (sym same)
                (create_new-Holds faults key nonce r t file b hn done.1
                  (ap (λ (m : SwapResult Bool × File). m.0) (sym same) ∙ h))
        ]

    with_record-ok :
        (x r : SwapRecoveryRecord) (m : SwapResult Bool × File) (b : Bool)
        → (with_record p c s k x m).0 ≡ ok (r, b)
        → (x ≡ r) × (m.0 ≡ ok b) × ((with_record p c s k x m).1 ≡ m.1)
    with_record-ok x r (ok y, f) b h = (ground arith, ground arith, refl)
    with_record-ok x r (err e, f) b h = absurd (cc)

    prepare_new-Holds :
        (faults : Faults) (key nonce : Bytes) (made : SwapResult SwapRecoveryRecord) (file : File)
        (r : SwapRecoveryRecord) (b : Bool)
        → length nonce ≡ 12
        → (prepare_new p c s k faults key nonce made file).0 ≡ ok (r, b)
        → (made ≡ ok r) × Holds key r (prepare_new p c s k faults key nonce made file).1
    unfolding prepare_new
    prepare_new-Holds faults key nonce (err e) file r b hn h = absurd (cc)
    prepare_new-Holds faults key nonce (ok x) file r b hn h =
        let m = write_recovery p c faults key nonce x file in
        let w = with_record-ok x r m b h in
        (
          ap ok w.0,
          subst (Holds key r) (sym w.2) (
              subst (λ (y : SwapRecoveryRecord). Holds key y m.1) w.0
                (write_recovery-Holds faults key nonce x file b hn w.1)),
        )

    -- What the call answers is bound to the request, and is what is on disk afterwards.
    pub prepare_or_load_recovery-ok :
        (faults : Faults) (key : Bytes) (q : PrepareRecoveryRequest) (secrets : Secrets)
        (nonce : Bytes) (other : File → File) (file : File) (r : SwapRecoveryRecord) (b : Bool)
        → length nonce ≡ 12
        → (prepare_or_load_recovery p c s k faults key q secrets nonce other file).0 ≡ ok (r, b)
        → (is_vacant p s k q ≡ false)
          × IsBound p s k r q
          × Holds key r (prepare_or_load_recovery p c s k faults key q secrets nonce other file).1
    unfolding prepare_or_load_recovery
    prepare_or_load_recovery-ok faults key q secrets nonce other file r b hn h =
        let made = new_record p s k q (request_material p s k q secrets) in
        elim (Bool-cases (is_vacant p s k q)) [
          | inl vacant ↦ absurd (ground arith)
          | inr full ↦ elim (Result-cases (read_recovery p c faults key file)) [
            | inr (x, bad) ↦ absurd (ground arith)
            | inl (found, read) ↦ elim (Option-cases found) [
              | inl missing ↦
                  let n =
                    prepare_new-Holds faults key nonce made (other file) r b hn (ground arith) in
                  (
                    full,
                    new_record-IsBound p s k q (request_material p s k q secrets) r n.0,
                    rw (full, read, missing) n.1,
                  )
              | inr (x, present) ↦
                  let valid = validated x q r b (ground arith) in
                  let same = valid.1 in
                  (
                    full,
                    (validate_recovery_iff p s k r q).0 (
                        subst (λ (y : SwapRecoveryRecord). validate_recovery p s k y q ≡ ok tt) same
                          valid.0),
                    rw (full, read, present)
                        (read_recovery-Holds faults key file r
                          (read ∙ ap ok (present ∙ ap some same))),
                  )
            ]
          ]
        ]

    -- Preparing is repeatable: after a call that answers a record, the same request with the same key,
    -- whatever fresh secrets and nonce it brings, answers that record as a replay and leaves the file as
    -- it is, if the file can be read and nothing else changes it.
    pub prepare_or_load_recovery_replays :
        (faults again : Faults) (key : Bytes) (q : PrepareRecoveryRequest) (secrets fresh : Secrets)
        (nonce second : Bytes) (other : File → File) (file : File) (r : SwapRecoveryRecord)
        (b : Bool)
        → length nonce ≡ 12
        → again.on_read ≡ none
        → (prepare_or_load_recovery p c s k faults key q secrets nonce other file).0 ≡ ok (r, b)
        → prepare_or_load_recovery p c s k again key q fresh second
            (λ f. f)
            (prepare_or_load_recovery p c s k faults key q secrets nonce other file).1
          ≡ (
            ok (r, true),
            (prepare_or_load_recovery p c s k faults key q secrets nonce other file).1,
          )
    prepare_or_load_recovery_replays faults again key q secrets fresh nonce second other file r b hn
          hr h =
        let d = prepare_or_load_recovery-ok faults key q secrets nonce other file r b hn h in
        loads_held again key q fresh second
          (prepare_or_load_recovery p c s k faults key q secrets nonce other file).1 r hr d.0 d.1
          d.2
