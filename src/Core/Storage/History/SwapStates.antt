-- ===== src/Core/Storage/History/SwapStates.antt =====
-- The state of a stored swap moves only along the accepted transitions.
use cross_network_market_mak.Prelude.{
  ◌&&◌, ℕ, ◌≡◌, ◌∙◌, refl, sym, subst, ap, Result, err, true, false, List, [], ◌∷◌, Option, none,
  some, ok, arith, Bool-cases, inl, inr,
}
use cross_network_market_mak.Prelude.Text.{Text, text_eq, text_eq_iff, text_eq-true}
use cross_network_market_mak.Core.Primitives.{Primitives}
use cross_network_market_mak.Core.Settlement.{SwapState, validate_transition}
use cross_network_market_mak.Core.Settlement.Paths.{
  ◌⟶*◌, here, then, ⟶*-append, paid_or_returned, is_paid, is_returning,
}
use cross_network_market_mak.Core.Storage.Tables.{Db, SwapRow, find}
use cross_network_market_mak.Core.Storage.Tables.Laws.{map_option, find-modify}
use cross_network_market_mak.Core.Storage.Codec.{
  Json, SwapRecord, parse_state, parse_state-state_text, digest_text,
}
use cross_network_market_mak.Core.Storage.Journal.{append_journal, append_journal_transaction}
use cross_network_market_mak.Core.Storage.Journal.Laws.{append-SameBut}
use cross_network_market_mak.Core.Storage.Outbox.{save_outbox}
use cross_network_market_mak.Core.Storage.Swaps.{
  insert_swap, insert_body, has_state, move_row, fill_row,
}
use cross_network_market_mak.Core.Storage.Swaps.Transitions.{Moves, transition_swap_cases}
use cross_network_market_mak.Core.Storage.Swaps.Replay.{Records, record_swap_evidence_cases}
use cross_network_market_mak.Core.Storage.Reservations.{
  ensure_solver_ledger, consume_reservation, consume_reservation_verified,
}
use cross_network_market_mak.Core.Storage.Reservations.Steps.{
  commit_cases, reserve_cases, consume_cases, release_cases, attach_cases,
}
use cross_network_market_mak.Core.Storage.History.{Operation, apply, run}

abbrev pub value_if_ok {ℓ κ} : {E : Type ℓ} {A : Type κ} → Result E A → Option A
value_if_ok (ok a) = some a
value_if_ok (err _) = none

abbrev pub read_state : Option SwapRow → Option SwapState
read_state none = none
read_state (some row) = value_if_ok (parse_state row.state)

-- The stored state of a swap, where there is one that reads.
unfoldable pub state_of : Text → Db → Option SwapState
state_of id db = read_state (find id db.swaps)

read_state-map :
    (f : SwapRow → SwapRow) (o : Option SwapRow)
    → ((row : SwapRow) → (f row).state ≡ row.state)
    → read_state (map_option f o) ≡ read_state o
read_state-map f none same = refl
read_state-map f (some row) same = ap (λ t. value_if_ok (parse_state t)) (same row)

-- A swap that was in `s` has moved along a path.
abbrev pub Progress : Text → SwapState → Db → Type 0
Progress id s db = (t : SwapState) × (state_of id db ≡ some t) × (s ⟶* t)

Progress-of_same :
    (id : Text) (s : SwapState) (db db' : Db)
    → db'.swaps ≡ db.swaps
    → state_of id db ≡ some s
    → Progress id s db'
unfolding state_of
Progress-of_same id s db db' e h = (s, ap (λ t. read_state (find id t)) e ∙ h, here)

insert-Progress :
    (p : Primitives) (j : Json) (r : SwapRecord) (at : ℕ) (id : Text) (s : SwapState) (db : Db)
    → state_of id db ≡ some s
    → Progress id s (insert_swap p j r at db).1
unfolding insert_swap insert_body state_of find
insert-Progress p j r at id s db h = (s, ground (arith, text_eq_iff r.swap_id id), here)

expected_state :
    (a : SwapState) (row : SwapRow) → has_state a row ≡ true → read_state (some row) ≡ some a
expected_state a row h = rw (text_eq-true _ _ h, parse_state-state_text) refl

moved_state :
    (a b : SwapState) (x e : Option Text) (row : SwapRow)
    → has_state a row ≡ true
    → read_state (some (move_row a b x e row)) ≡ some b
moved_state a b x e row h = rw (h, parse_state-state_text) refl

same_state : (a b : SwapState) → some a ≡ some b → a ≡ b
same_state a b e = cc

move-Progress :
    (k : Text) (a b : SwapState) (x e : Option Text) (id : Text) (s : SwapState) (db db' : Db)
    → validate_transition a b ≡ ok tt
    → Moves k a b x e db db'
    → state_of id db ≡ some s
    → Progress id s db'
unfolding state_of
move-Progress k a b x e id s db db' good m h = elim (Bool-cases (text_eq k id)) [
  | inr other ↦ (s, rw (m.row_moved, find-modify, other) h, here)
  | inl same ↦
      let moved : state_of id db' ≡ some b =
        rw (m.row_moved, find-modify, same, ← (text_eq-true k id same), m.row_found)
          (moved_state a b x e m.row m.was_expected) in
      let was : some a ≡ some s =
        sym (expected_state a m.row m.was_expected)
        ∙ rw (← (text_eq-true k id same), m.row_found) at h in
      (b, moved, then here (subst (λ q. validate_transition q b ≡ ok tt) (same_state a s was) good))
]

fill-Progress :
    (k f c x e : Text) (id : Text) (s : SwapState) (db db' : Db)
    → Records k f c x e db db'
    → state_of id db ≡ some s
    → Progress id s db'
unfolding state_of
fill-Progress k f c x e id s db db' m h = elim (Bool-cases (text_eq k id)) [
  | inl same ↦ (
    s,
    rw (m.row_filled, find-modify, same)
        (read_state-map (fill_row f c x e) (find id db.swaps) (λ row. refl) ∙ h),
    here,
  )
  | inr other ↦ (s, rw (m.row_filled, find-modify, other) h, here)
]

module _ (p : Primitives) (j : Json) where
  apply-Progress :
      (op : Operation) (id : Text) (s : SwapState) (db : Db)
      → state_of id db ≡ some s
      → Progress id s (apply p j op db)
  unfolding apply append_journal consume_reservation consume_reservation_verified
  apply-Progress (Operation.insert_swap r at) id s db h = insert-Progress p j r at id s db h
  apply-Progress (Operation.transition_swap k a b x e) id s db h =
      elim (transition_swap_cases p j k a b x e db) [
        | inl same ↦ Progress-of_same id s db _ (ap (λ (d : Db). d.swaps) same) h
        | inr (good, m) ↦ move-Progress k a b x e id s db _ good m h
      ]
  apply-Progress (Operation.record_swap_evidence k f c x e) id s db h =
      elim (record_swap_evidence_cases p j k f c x e db) [
        | inl same ↦ Progress-of_same id s db _ (ap (λ (d : Db). d.swaps) same) h
        | inr m ↦ fill-Progress k f c x e id s db _ m h
      ]
  apply-Progress (Operation.ensure_solver_ledger k a n) id s db h =
      Progress-of_same id s db _ (unfold ensure_solver_ledger in ground arith) h
  apply-Progress (Operation.reserve r a) id s db h =
      reserve_cases {P = Progress id s} p j r a db (s, h, here)
        λ db' e. Progress-of_same id s db db' e.swaps_same h
  apply-Progress (Operation.attach_reservation k q now) id s db h = elim (attach_cases k q now db) [
    | inl same ↦ Progress-of_same id s db _ (ap (λ (d : Db). d.swaps) same) h
    | inr e ↦ Progress-of_same id s db _ (ap (λ (d : Db). d.swaps) e) h
  ]
  apply-Progress (Operation.consume_reservation k) id s db h =
      consume_cases {P = Progress id s} k none db (s, h, here)
        λ db' row found c. Progress-of_same id s db db' c.swaps_same h
  apply-Progress (Operation.consume_reservation_verified k x) id s db h =
      consume_cases {P = Progress id s} k (some (digest_text p x)) db (s, h, here)
        λ db' row found c. Progress-of_same id s db db' c.swaps_same h
  apply-Progress (Operation.release_reservation k now) id s db h =
      release_cases {P = Progress id s} k now db (s, h, here)
        λ db' row found r. Progress-of_same id s db db' r.swaps_same h
  apply-Progress (Operation.append_journal entry) id s db h =
      commit_cases {P = Progress id s} (append_journal_transaction entry db) db (s, h, here)
        λ db' e. Progress-of_same id s db db' (append-SameBut entry db db' e).swaps h
  apply-Progress (Operation.save_outbox o) id s db h =
      Progress-of_same id s db _ (unfold save_outbox in refl) h

  run-Progress :
      (ops : List Operation) (id : Text) (s : SwapState) (db : Db)
      → state_of id db ≡ some s
      → Progress id s (run p j ops db)
  unfolding run
  run-Progress [] id s db h = (s, h, here)
  run-Progress (op ∷ ops) id s db h =
      let (t, ht, r) = apply-Progress op id s db h in
      let (u, hu, q) = run-Progress ops id t (apply p j op db) ht in (u, hu, ⟶*-append r q)

  -- Whatever is called, a stored swap keeps a readable state that is reached by accepted
  -- transitions; once its output is settled it is never refunding, refunded or failed, and once it
  -- is refunding, refunded or failed its output is never settled.
  pub run_paid_or_returned :
      (ops : List Operation) (id : Text) (s : SwapState) (db : Db)
      → state_of id db ≡ some s
      → (t : SwapState) × (state_of id (run p j ops db) ≡ some t)
        × (s ⟶* t)
        × ((is_paid s && is_returning t) ≡ false)
        × ((is_returning s && is_paid t) ≡ false)
  run_paid_or_returned ops id s db h =
      let (t, ht, r) = run-Progress ops id s db h in
      (t, ht, r, ground (arith, (paid_or_returned r).0), ground (arith, (paid_or_returned r).1))
