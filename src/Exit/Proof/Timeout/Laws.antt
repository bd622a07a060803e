-- ===== src/Exit/Proof/Timeout/Laws.antt =====
-- What a timeout proof guarantees.
use cross_network_market_mak.Prelude.{
  ℕ, suc, ◌+◌, ◌≡◌, refl, true, List, [], ◌∷◌, Option, none, some, ok, arith, get_elem?,
  Option-cases, inl, inr, sym, subst,
}
use cross_network_market_mak.Prelude.Text.{text_eq_iff}
use cross_network_market_mak.Core.Primitives.{Bytes}
use cross_network_market_mak.Exit.Proof.{TxIn, TxOut, Transaction, Reader}
use cross_network_market_mak.Exit.Proof.Timeout.{
  HtlcTimeoutProof, Scripts, Target, find_candidate, has_single_sighash, timeout_witness_script,
  last, binds_script, binds_output, matches_input, timeout_proof, find_timeout_proof,
  has_hash_window, Instruction, IdentifyTimeoutByHashArgs, identify_htlc_timeout_by_hash,
}

module _ (s : Scripts) where
  matches_input-some :
      (t : Target) (input : TxIn) (script : Option Bytes) (output : Option TxOut) (o : TxOut)
      → matches_input s t input script output ≡ some o
      → (c : Bytes) × (script ≡ some c)
        × (output ≡ some o)
        × (input.previous_txid ≡ t.commitment_txid)
        × (binds_script s t c input ≡ true)
        × (o.value ≡ t.expected_amount_sats)
  unfolding matches_input binds_output
  matches_input-some t input none output o h = absurd (ground arith)
  matches_input-some t input (some c) none o h = absurd (ground arith)
  matches_input-some t input (some c) (some o') o h = (
    c,
    refl,
    ground arith,
    ground (arith, text_eq_iff input.previous_txid t.commitment_txid),
    ground arith,
    ground arith,
  )

  -- A timeout proof names an input of the transaction and the output at the same index. The input
  -- spends a candidate output of the commitment transaction, whose script is the hash of the
  -- witness's script; that script has the target's payment hash, the signatures cover the paired
  -- output alone or more, and the output has the expected amount.
  pub find_timeout_proof-ok :
      (t : Target) (tx : Transaction) (start : ℕ) (inputs : List TxIn) (found : HtlcTimeoutProof)
      → find_timeout_proof s t tx start inputs ≡ ok found
      → (k : ℕ) × (input : TxIn) × (output : TxOut) × (commitment_script : Bytes)
        × (found.timeout_input_index ≡ start + k)
        × (found.timeout_output_index ≡ start + k)
        × (get_elem? inputs k ≡ some input)
        × (get_elem? tx.output (start + k) ≡ some output)
        × (found.timeout_amount_sats ≡ t.expected_amount_sats)
        × (found.commitment_vout ≡ input.previous_vout)
        × (input.previous_txid ≡ t.commitment_txid)
        × (find_candidate input.previous_vout t.candidate_outputs ≡ some commitment_script)
        × (binds_script s t commitment_script input ≡ true)
        × (output.value ≡ t.expected_amount_sats)
  unfolding find_timeout_proof timeout_proof
  find_timeout_proof-ok t tx start [] found h = absurd (ground arith)
  find_timeout_proof-ok t tx start (i ∷ inputs) found h =
      elim (Option-cases (
        matches_input s t i (find_candidate i.previous_vout t.candidate_outputs)
          (get_elem? tx.output start))) [
            | inl skipped ↦
                let (
                  k, input, output, c, at, at', here, there, value, vout, txid, candidate, binds,
                  paid,
                ) =
                  find_timeout_proof-ok t tx (suc start) inputs found (ground (arith, skipped)) in
                let next : suc start + k ≡ start + suc k = omega arith in
                (
                  suc k,
                  input,
                  output,
                  c,
                  rw (sym next) at,
                  rw (sym next) at',
                  here,
                  rw (sym next) there,
                  value,
                  vout,
                  txid,
                  candidate,
                  binds,
                  paid,
                )
            | inr (o, matched) ↦
                let (c, candidate, paired, txid, binds, paid) =
                  matches_input-some t i (find_candidate i.previous_vout t.candidate_outputs)
                    (get_elem? tx.output start) o matched in
                let is_first : timeout_proof s t tx start i o ≡ found = ground (arith, matched) in
                (
                  0,
                  i,
                  o,
                  c,
                  ground arith,
                  ground arith,
                  refl,
                  ground (arith, paired),
                  ground arith,
                  ground arith,
                  txid,
                  candidate,
                  binds,
                  paid,
                )
          ]

  binds_script-true :
      (t : Target) (c : Bytes) (input : TxIn)
      → binds_script s t c input ≡ true
      → (w : Bytes) × (ops : List Instruction) × (last input.witness ≡ some w)
        × (s.instructions w ≡ some ops)
        × (has_hash_window (s.ripemd160 t.payment_hash) ops ≡ true)
        × (s.new_p2wsh w ≡ c)
        × (has_single_sighash s input.witness ≡ true)
  unfolding binds_script timeout_witness_script
  binds_script-true t c input h = elim (Option-cases (last input.witness)) [
    | inl absent ↦ absurd (ground (arith, absent))
    | inr (w, present) ↦ elim (Option-cases (s.instructions w)) [
      | inl malformed ↦ absurd (ground (arith, present, malformed))
      | inr (ops, read) ↦ (
        w,
        ops,
        present,
        read,
        ground (arith, present, read),
        ground (arith, present, read, text_eq_iff (s.new_p2wsh w) c),
        ground (arith, present, read),
      )
    ]
  ]

  -- A timeout that is proved by its hash is a transaction of which one input spends a candidate
  -- output of the commitment transaction. The input reveals a script that the candidate commits to
  -- and that tests the target's payment hash, it is signed in the way of a batched timeout, and the
  -- output at its index has the expected amount. The proof names that input, the output at the same
  -- index, the commitment output that is spent, and the amount.
  pub identify_htlc_timeout_by_hash-ok :
      (reader : Reader) (args : IdentifyTimeoutByHashArgs) (found : HtlcTimeoutProof)
      → identify_htlc_timeout_by_hash s reader args ≡ ok found
      → (tx : Transaction) × (input : TxIn) × (output : TxOut) × (w : Bytes) × (ops : List
          Instruction)
        × (reader.parse_transaction args.raw_hex ≡ some tx)
        × (reader.parse_txid args.commitment_txid ≡ some input.previous_txid)
        × (get_elem? tx.input found.timeout_input_index ≡ some input)
        × (get_elem? tx.output found.timeout_input_index ≡ some output)
        × (output.value ≡ args.expected_amount_sats)
        × (found.timeout_amount_sats ≡ args.expected_amount_sats)
        × (found.timeout_output_index ≡ found.timeout_input_index)
        × (found.commitment_vout ≡ input.previous_vout)
        × (last input.witness ≡ some w)
        × (s.instructions w ≡ some ops)
        × (has_hash_window (s.ripemd160 args.payment_hash) ops ≡ true)
        × (find_candidate input.previous_vout args.candidate_outputs ≡ some (s.new_p2wsh w))
        × (has_single_sighash s input.witness ≡ true)
  unfolding identify_htlc_timeout_by_hash
  identify_htlc_timeout_by_hash-ok reader args found h =
      elim (Option-cases (reader.parse_transaction args.raw_hex)) [
        | inl unread ↦ absurd (ground (arith, unread))
        | inr (tx, read) ↦ elim (Option-cases (reader.parse_txid args.commitment_txid)) [
          | inl bad_id ↦ absurd (ground (arith, read, bad_id))
          | inr (id, parsed) ↦
              let t : Target = record {
                commitment_txid = id;
                commitment_txid_text = args.commitment_txid;
                payment_hash = args.payment_hash;
                candidate_outputs = args.candidate_outputs;
                expected_output_script = none;
                expected_amount_sats = args.expected_amount_sats;
              } in
              let (
                k, input, output, c, at, at', here, there, value, vout, txid, candidate, binds,
                paid,
              ) =
                find_timeout_proof-ok t tx 0 tx.input found (ground (arith, read, parsed)) in
              let (w, ops, present, scripts, window, hashed, single) =
                binds_script-true t c input binds in
              let index : found.timeout_input_index ≡ k = omega (arith, at) in
              let from_start : 0 + k ≡ k = omega arith in
              (
                tx,
                input,
                output,
                w,
                ops,
                read,
                rw txid parsed,
                rw index here,
                rw index (subst (λ x. get_elem? tx.output x ≡ some output) from_start there),
                paid,
                value,
                omega (arith, at, at'),
                vout,
                present,
                scripts,
                window,
                rw hashed candidate,
                single,
              )
        ]
      ]
