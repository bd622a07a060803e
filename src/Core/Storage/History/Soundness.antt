-- ===== src/Core/Storage/History/Soundness.antt =====
-- The ledgers are sound after any history of calls.
use cross_network_market_mak.Prelude.{
  ℕ, ◌≡◌, refl, sym, subst, List, [], ◌∷◌, Option, none, some, arith, Option-cases, Bool-cases, inl,
  inr,
}
use cross_network_market_mak.Prelude.Text.{Text, text_eq, text_eq_iff, codes}
use cross_network_market_mak.Prelude.Decimal.{parse_u64}
use cross_network_market_mak.Core.Primitives.{Primitives}
use cross_network_market_mak.Core.Amount.{CanonicalAmount}
use cross_network_market_mak.Core.Settlement.{SwapState}
use cross_network_market_mak.Core.Storage.Tables.{Db, LedgerRow, find}
use cross_network_market_mak.Core.Storage.Tables.Laws.{find-insert}
use cross_network_market_mak.Core.Storage.Codec.{Json, SwapRecord, digest_text}
use cross_network_market_mak.Core.Storage.Journal.{
  JournalEntry, append_journal, append_journal_transaction,
}
use cross_network_market_mak.Core.Storage.Journal.Laws.{append-SameBut}
use cross_network_market_mak.Core.Storage.Outbox.{FundingOutbox, save_outbox}
use cross_network_market_mak.Core.Storage.Swaps.{
  insert_swap, insert_body, transition_swap, record_swap_evidence,
}
use cross_network_market_mak.Core.Storage.Swaps.Transitions.{transition_swap_cases}
use cross_network_market_mak.Core.Storage.Swaps.Replay.{record_swap_evidence_cases}
use cross_network_market_mak.Core.Storage.Reservations.{
  ensure_solver_ledger, attach_reservation, consume_reservation, consume_reservation_verified,
}
use cross_network_market_mak.Core.Storage.Reservations.Balance.{
  IsSound, Balanced, Covers, held_sum, held_sum-modify_same, weight,
}
use cross_network_market_mak.Core.Storage.Reservations.Soundness.{
  reserve-IsSound, consume-IsSound, release-IsSound,
}
use cross_network_market_mak.Core.Storage.Reservations.Steps.{
  commit_cases, reserve_cases, consume_cases, release_cases, attach_cases, attached,
}
use cross_network_market_mak.Core.Storage.History.{Operation, IsProper, AllProper, apply, run}

-- Soundness reads only the ledgers and the reservations.
IsSound-same :
    (db db' : Db)
    → db'.reservations ≡ db.reservations
    → db'.solver_ledgers ≡ db.solver_ledgers
    → IsSound db
    → IsSound db'
IsSound-same db db' rs ls sound = record { at_solver = λ s. rw (rs, ls) (sound.at_solver s) }

abbrev opening : CanonicalAmount → Text → LedgerRow
opening a asset_id = record {
  asset_id = asset_id;
  available_amount = a.text;
  reserved_amount = codes "0";
  consumed_amount = codes "0";
}

new_ledger :
    (a : CanonicalAmount) (asset_id : Text) (n : ℕ)
    → parse_u64 a.text ≡ some n
    → Balanced (opening a asset_id) 0
unfolding parse_u64
new_ledger a asset_id n e = record {
  available = n;
  consumed = 0;
  available_reads = e;
  reserved_reads = refl;
  consumed_reads = refl;
  covered = omega arith;
}

ensure-IsSound :
    (k asset_id : Text) (a : CanonicalAmount) (n : ℕ) (db : Db)
    → parse_u64 a.text ≡ some n
    → IsSound db
    → IsSound (ensure_solver_ledger k asset_id a db).1
unfolding ensure_solver_ledger
ensure-IsSound k asset_id a n db e sound = elim (Option-cases (find k db.solver_ledgers)) [
  | inr (l, there) ↦ rw (there, ensure_solver_ledger) sound
  | inl new ↦
      rw (new, ensure_solver_ledger)
        (record {
          at_solver = λ s. rw find-insert (elim (Bool-cases (text_eq k s)) [
            | inl same ↦ rw same (
                subst (λ x. Covers (some (opening a asset_id)) (held_sum x db.reservations))
                  ((text_eq_iff k s).0 same)
                  (subst (λ h. Balanced (opening a asset_id) h)
                    (sym (rw new at (sound.at_solver k))) (new_ledger a asset_id n e)))
            | inr other ↦ rw other (sound.at_solver s)
          ]);
        })
]

attach-IsSound :
    (id swap_id : Text) (now : ℕ) (db : Db)
    → IsSound db
    → IsSound (attach_reservation id swap_id now db).1
unfolding weight
attach-IsSound id swap_id now db sound = elim (attach_cases id swap_id now db) [
  | inl same ↦ subst IsSound (sym same) sound
  | inr e ↦ subst IsSound (sym e) (record {
    at_solver = λ s.
        rw (held_sum-modify_same s id (attached swap_id) db.reservations (λ r. refl))
          (sound.at_solver s);
  })
]

module _ (p : Primitives) (j : Json) where
  insert_swap-IsSound :
      (r : SwapRecord) (at : ℕ) (db : Db) → IsSound db → IsSound (insert_swap p j r at db).1
  unfolding insert_swap insert_body
  insert_swap-IsSound r at db sound =
      IsSound-same db (insert_swap p j r at db).1 (ground arith) (ground arith) sound

  transition-IsSound :
      (id : Text) (s t : SwapState) (h e : Option Text) (db : Db)
      → IsSound db
      → IsSound (transition_swap p j id s t h e db).1
  transition-IsSound id s t h e db sound = elim (transition_swap_cases p j id s t h e db) [
    | inl same ↦ subst IsSound (sym same) sound
    | inr (_, m) ↦ IsSound-same db _ m.reservations_same m.ledgers_same sound
  ]

  evidence-IsSound :
      (id f c h e : Text) (db : Db)
      → IsSound db
      → IsSound (record_swap_evidence p j id f c h e db).1
  evidence-IsSound id f c h e db sound = elim (record_swap_evidence_cases p j id f c h e db) [
    | inl same ↦ subst IsSound (sym same) sound
    | inr m ↦ IsSound-same db _ m.reservations_same m.ledgers_same sound
  ]

  journal-IsSound :
      (entry : JournalEntry) (db : Db) → IsSound db → IsSound (append_journal entry db).1
  unfolding append_journal
  journal-IsSound entry db sound =
      commit_cases {P = IsSound} (append_journal_transaction entry db) db sound λ db' e.
        let same = append-SameBut entry db db' e in
        IsSound-same db db' same.reservations same.solver_ledgers sound

  outbox-IsSound : (o : FundingOutbox) (db : Db) → IsSound db → IsSound (save_outbox o db).1
  unfolding save_outbox
  outbox-IsSound o db sound = IsSound-same db (save_outbox o db).1 refl refl sound

  apply-IsSound : (op : Operation) (db : Db) → IsProper op → IsSound db → IsSound (apply p j op db)
  unfolding apply consume_reservation consume_reservation_verified
  apply-IsSound (Operation.insert_swap r at) db _ s = insert_swap-IsSound r at db s
  apply-IsSound (Operation.transition_swap id a b h e) db _ s = transition-IsSound id a b h e db s
  apply-IsSound (Operation.record_swap_evidence id f c h e) db _ s =
      evidence-IsSound id f c h e db s
  apply-IsSound (Operation.ensure_solver_ledger k a n) db (v, e) s = ensure-IsSound k a n v db e s
  apply-IsSound (Operation.reserve r a) db st s =
      reserve_cases {P = IsSound} p j r a db s λ db' e. reserve-IsSound r a db db' e st s
  apply-IsSound (Operation.attach_reservation id k now) db _ s = attach-IsSound id k now db s
  apply-IsSound (Operation.consume_reservation id) db _ s =
      consume_cases {P = IsSound} id none db s
        λ db' row found c. consume-IsSound id row db db' found c s
  apply-IsSound (Operation.consume_reservation_verified id x) db _ s =
      consume_cases {P = IsSound} id (some (digest_text p x)) db s
        λ db' row found c. consume-IsSound id row db db' found c s
  apply-IsSound (Operation.release_reservation id now) db _ s =
      release_cases {P = IsSound} id now db s
        λ db' row found r. release-IsSound id row db db' found now r s
  apply-IsSound (Operation.append_journal entry) db _ s = journal-IsSound entry db s
  apply-IsSound (Operation.save_outbox o) db _ s = outbox-IsSound o db s

  -- After any sequence of calls of the store's mutating methods, failing or not, whose new
  -- reservations are held and whose opening amounts are numbers, every ledger reserves exactly the
  -- sum of its held reservations and no more than it has available, if that held before.
  pub run-IsSound :
      (ops : List Operation) (db : Db) → AllProper ops → IsSound db → IsSound (run p j ops db)
  unfolding run
  run-IsSound [] db _ s = s
  run-IsSound (op ∷ ops) db (h, hs) s =
      run-IsSound ops (apply p j op db) hs (apply-IsSound op db h s)
