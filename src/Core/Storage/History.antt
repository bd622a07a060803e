-- ===== src/Core/Storage/History.antt =====
-- Any sequence of calls of the store's mutating methods.
pub mod Soundness
pub mod Worth
pub mod SwapStates
use cross_network_market_mak.Prelude.{ℕ, ◌≡◌, List, [], ◌∷◌, Option, some}
use cross_network_market_mak.Prelude.Text.{Text}
use cross_network_market_mak.Prelude.Decimal.{parse_u64}
use cross_network_market_mak.Core.Primitives.{Primitives, Bytes}
use cross_network_market_mak.Core.Amount.{CanonicalAmount}
use cross_network_market_mak.Core.Settlement.{SwapState}
use cross_network_market_mak.Core.Storage.Tables.{Db}
use cross_network_market_mak.Core.Storage.Codec.{Reservation, held, SwapRecord, Json}
use cross_network_market_mak.Core.Storage.Journal
use cross_network_market_mak.Core.Storage.Journal.{JournalEntry}
use cross_network_market_mak.Core.Storage.Swaps
use cross_network_market_mak.Core.Storage.Reservations
use cross_network_market_mak.Core.Storage.Outbox
use cross_network_market_mak.Core.Storage.Outbox.{FundingOutbox}

pub data Operation : Type 0 where
  insert_swap : SwapRecord → ℕ → Operation
  transition_swap : Text → SwapState → SwapState → Option Text → Option Text → Operation
  record_swap_evidence : Text → Text → Text → Text → Text → Operation
  ensure_solver_ledger : Text → Text → CanonicalAmount → Operation
  reserve : Reservation → Text → Operation
  attach_reservation : Text → Text → ℕ → Operation
  consume_reservation : Text → Operation
  consume_reservation_verified : Text → Bytes → Operation
  release_reservation : Text → ℕ → Operation
  append_journal : JournalEntry → Operation
  save_outbox : FundingOutbox → Operation

-- What the callers give: a new reservation is held, and an amount is one that `parse` has accepted.
abbrev pub IsProper : Operation → Type 0
IsProper (reserve r asset_id) = r.state ≡ held
IsProper (ensure_solver_ledger solver_id asset_id available) =
    (n : ℕ) × (parse_u64 available.text ≡ some n)
IsProper _ = Unit

abbrev pub AllProper : List Operation → Type 0
AllProper [] = Unit
AllProper (op ∷ ops) = IsProper op × AllProper ops

module _ (p : Primitives) (j : Json) where
  unfoldable pub apply : Operation → Db → Db
  apply (insert_swap r at) db = (Swaps.insert_swap p j r at db).1
  apply (transition_swap id s t h e) db = (Swaps.transition_swap p j id s t h e db).1
  apply (record_swap_evidence id f c h e) db = (Swaps.record_swap_evidence p j id f c h e db).1
  apply (ensure_solver_ledger s a n) db = (Reservations.ensure_solver_ledger s a n db).1
  apply (reserve r a) db = (Reservations.reserve p j r a db).1
  apply (attach_reservation id s now) db = (Reservations.attach_reservation id s now db).1
  apply (consume_reservation id) db = (Reservations.consume_reservation id db).1
  apply (consume_reservation_verified id x) db =
      (Reservations.consume_reservation_verified p id x db).1
  apply (release_reservation id now) db = (Reservations.release_reservation id now db).1
  apply (append_journal entry) db = (Journal.append_journal entry db).1
  apply (save_outbox o) db = (Outbox.save_outbox o db).1

  unfoldable pub run : List Operation → Db → Db
  run [] db = db
  run (op ∷ ops) db = run ops (apply op db)
