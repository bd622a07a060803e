-- ===== src/Core/Storage/History/Worth.antt =====
-- What a solver has, available and consumed together, never changes.
use cross_network_market_mak.Prelude.{
  ℕ, ◌+◌, ◌-◌, ◌<◌, ◌≡◌, ◌∙◌, refl, sym, subst, ap, List, [], ◌∷◌, none, some, arith, Option-cases,
  Bool-cases, inl, inr,
}
use cross_network_market_mak.Prelude.Text.{Text, text_eq, text_eq_iff}
use cross_network_market_mak.Prelude.Decimal.{u64_limit, parse_u64-lt, parse_u64-to_string}
use cross_network_market_mak.Core.Primitives.{Primitives}
use cross_network_market_mak.Core.Amount.{CanonicalAmount}
use cross_network_market_mak.Core.Storage.Tables.{Db, LedgerRow, ReservationRow, find, modify}
use cross_network_market_mak.Core.Storage.Tables.Laws.{map_option, find-insert, find-modify}
use cross_network_market_mak.Core.Storage.Codec.{Json, digest_text}
use cross_network_market_mak.Core.Storage.Journal.{append_journal, append_journal_transaction}
use cross_network_market_mak.Core.Storage.Journal.Laws.{append-SameBut}
use cross_network_market_mak.Core.Storage.Outbox.{save_outbox}
use cross_network_market_mak.Core.Storage.Swaps.{insert_swap, insert_body}
use cross_network_market_mak.Core.Storage.Swaps.Transitions.{transition_swap_cases}
use cross_network_market_mak.Core.Storage.Swaps.Replay.{record_swap_evidence_cases}
use cross_network_market_mak.Core.Storage.Reservations.{
  set_balances, set_reserved, ensure_solver_ledger, consume_reservation,
  consume_reservation_verified,
}
use cross_network_market_mak.Core.Storage.Reservations.Balance.{worth, worth_of}
use cross_network_market_mak.Core.Storage.Reservations.Closing.{Consumes}
use cross_network_market_mak.Core.Storage.Reservations.Steps.{
  commit_cases, reserve_cases, consume_cases, release_cases, attach_cases,
}
use cross_network_market_mak.Core.Storage.History.{Operation, apply, run}

-- A change of one ledger row that keeps its worth keeps every solver's.
module _ (k : Text) (f : LedgerRow → LedgerRow) (l : LedgerRow) (db db' : Db) where
  one_ledger-worth :
      db'.solver_ledgers ≡ modify k f db.solver_ledgers
      → find k db.solver_ledgers ≡ some l
      → worth_of (some (f l)) ≡ worth_of (some l)
      → (s : Text) → worth s db' ≡ worth s db
  unfolding worth
  one_ledger-worth tables found same s =
      rw (tables, find-modify)
        (elim (Bool-cases (text_eq k s)) [
          | inl e ↦ rw e (
              subst
                (λ x.
                  worth_of (map_option f (find x db.solver_ledgers))
                  ≡ worth_of (find x db.solver_ledgers))
                ((text_eq_iff k s).0 e) (rw found same))
          | inr e ↦ rw e refl
        ])

set_reserved-worth :
    (n : ℕ) (l : LedgerRow) → worth_of (some (set_reserved n l)) ≡ worth_of (some l)
set_reserved-worth n l = refl

set_balances-worth :
    (id : Text) (row : ReservationRow) (db db' : Db) (c : Consumes id row db db')
    → worth_of (
        some (
          set_balances
            (c.available - c.amount)
            (c.reserved - c.amount)
            (c.spent + c.amount)
            c.ledger))
      ≡ worth_of (some c.ledger)
set_balances-worth id row db db' c =
    let in_range : c.available < u64_limit = parse_u64-lt _ _ c.available_reads in
    rw
      (
        parse_u64-to_string (c.available - c.amount) (omega arith),
        parse_u64-to_string (c.spent + c.amount) c.fits_u64,
        c.available_reads,
        c.spent_reads,
      )
      (ap some (omega (arith, c.within_available)))

-- The worth of a solver whose ledger is known is the same in both databases.
abbrev Keeps : Db → Db → Type 0
Keeps db db' = (s : Text) (w : ℕ) → worth s db ≡ some w → worth s db' ≡ some w

Keeps-of_same : (db db' : Db) → db'.solver_ledgers ≡ db.solver_ledgers → Keeps db db'
unfolding worth
Keeps-of_same db db' e s w h = rw e h

ensure-Keeps :
    (k asset_id : Text) (a : CanonicalAmount) (db : Db)
    → Keeps db (ensure_solver_ledger k asset_id a db).1
unfolding ensure_solver_ledger worth
ensure-Keeps k asset_id a db s w h = elim (Option-cases (find k db.solver_ledgers)) [
  | inr (l, there) ↦ rw (there, ensure_solver_ledger) h
  | inl new ↦
      rw (new, ensure_solver_ledger, find-insert)
        (elim (Bool-cases (text_eq k s)) [
          | inl same ↦ ground (arith, text_eq_iff k s)
          | inr other ↦ rw other h
        ])
]

module _ (p : Primitives) (j : Json) where
  apply-Keeps : (op : Operation) (db : Db) → Keeps db (apply p j op db)
  unfolding apply insert_swap insert_body append_journal save_outbox consume_reservation
      consume_reservation_verified
  apply-Keeps (Operation.insert_swap r at) db =
      Keeps-of_same db (insert_swap p j r at db).1 (ground arith)
  apply-Keeps (Operation.transition_swap id a b h e) db =
      elim (transition_swap_cases p j id a b h e db) [
        | inl same ↦ subst (Keeps db) (sym same) (λ s w k. k)
        | inr (_, m) ↦ Keeps-of_same db _ m.ledgers_same
      ]
  apply-Keeps (Operation.record_swap_evidence id f c h e) db =
      elim (record_swap_evidence_cases p j id f c h e db) [
        | inl same ↦ subst (Keeps db) (sym same) (λ s w k. k)
        | inr m ↦ Keeps-of_same db _ m.ledgers_same
      ]
  apply-Keeps (Operation.ensure_solver_ledger k a n) db = ensure-Keeps k a n db
  apply-Keeps (Operation.reserve r a) db =
      reserve_cases {P = Keeps db} p j r a db (λ s w k. k)
        λ db' e s w k.
          one_ledger-worth r.solver_id _ e.ledger db db' e.sum_raised e.ledger_found refl s ∙ k
  apply-Keeps (Operation.attach_reservation id k now) db = elim (attach_cases id k now db) [
    | inl same ↦ subst (Keeps db) (sym same) (λ s w k. k)
    | inr e ↦ subst (Keeps db) (sym e) (Keeps-of_same db _ refl)
  ]
  apply-Keeps (Operation.consume_reservation id) db =
      consume_cases {P = Keeps db} id none db (λ s w k. k)
        λ db' row found c s w k.
          one_ledger-worth row.solver_id _ c.ledger db db' c.amounts_moved c.ledger_found
            (set_balances-worth id row db db' c) s
          ∙ k
  apply-Keeps (Operation.consume_reservation_verified id x) db =
      consume_cases {P = Keeps db} id (some (digest_text p x)) db (λ s w k. k)
        λ db' row found c s w k.
          one_ledger-worth row.solver_id _ c.ledger db db' c.amounts_moved c.ledger_found
            (set_balances-worth id row db db' c) s
          ∙ k
  apply-Keeps (Operation.release_reservation id now) db =
      release_cases {P = Keeps db} id now db (λ s w k. k)
        λ db' row found r s w k.
          one_ledger-worth row.solver_id _ r.ledger db db' r.sum_lowered r.ledger_found refl s ∙ k
  apply-Keeps (Operation.append_journal entry) db =
      commit_cases {P = Keeps db} (append_journal_transaction entry db) db (λ s w k. k)
        λ db' e. Keeps-of_same db db' (append-SameBut entry db db' e).solver_ledgers
  apply-Keeps (Operation.save_outbox o) db = Keeps-of_same db (save_outbox o db).1 refl

  -- Whatever is called, the available and the consumed amount of a solver that has a ledger always
  -- add up to the same number.
  pub run-worth :
      (ops : List Operation) (db : Db) (s : Text) (w : ℕ)
      → worth s db ≡ some w
      → worth s (run p j ops db) ≡ some w
  unfolding run
  run-worth [] db s w h = h
  run-worth (op ∷ ops) db s w h = run-worth ops (apply p j op db) s w (apply-Keeps op db s w h)
