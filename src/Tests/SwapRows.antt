-- ===== src/Tests/SwapRows.antt =====
-- Stored swaps.
use cross_network_market_mak.Prelude.{
  ◌≡◌, ◌⊎◌, ◌&&◌, refl, false, some, none, ok, err, [], ◌∷◌, List, if◌then◌else◌,
}
use cross_network_market_mak.Prelude.Text.{Text, text_eq, codes}
use cross_network_market_mak.Core.Error.{storage}
use cross_network_market_mak.Core.Settlement.{
  SwapState, created, input_funding, failed, refunding, validate_transition, can_transition_to,
}
use cross_network_market_mak.Core.Settlement.Paths.{◌⟶*◌, is_paid, is_returning}
use cross_network_market_mak.Core.Storage.Tables.{Db, find, modify}
use cross_network_market_mak.Core.Storage.Codec.{
  SwapRecord, state_text, parse_state, debug_text, digest_text,
}
use cross_network_market_mak.Core.Storage.Journal.{append_journal_transaction}
use cross_network_market_mak.Core.Storage.Swaps.{
  insert_body, insert_swap, insert_digest, get_swap, deserialize_swap, transition_body,
  transition_swap, record_swap_evidence,
}
use cross_network_market_mak.Core.Storage.Swaps.Transitions.{Moves, transition_swap_result}
use cross_network_market_mak.Core.Storage.Swaps.Replay.{
  Records, insert_once, record_swap_evidence_cases,
}
use cross_network_market_mak.Core.Storage.History.{Operation, run}
use cross_network_market_mak.Core.Storage.History.SwapStates.{state_of, run_paid_or_returned}
use cross_network_market_mak.Tests.{plain, json, empty_db, swap, signed}

abbrev s1 : Text
s1 = codes "s1"

abbrev stored : Db
stored = (insert_swap plain json swap 1 empty_db).1

inserts : insert_swap plain json swap 1 empty_db ≡ (ok tt, stored)
unfolding insert_swap insert_body find
inserts = refl

-- The same id with another quote.
abbrev other_swap : SwapRecord
other_swap = record swap {
  quote = record signed { quote = record signed.quote { quote_id = codes "q2" } };
}

insert_once_example : insert_swap plain json other_swap 2 stored ≡ (
    if text_eq (insert_digest plain json swap) (insert_digest plain json other_swap)
    then (ok tt, stored)
    else (err (storage "swap replay payload does not match the original digest"), stored))
insert_once_example = insert_once plain json swap other_swap 1 2 empty_db stored inserts refl

no_swap : find s1 empty_db.swaps ≡ none
unfolding find
no_swap = refl

abbrev funding_swap : SwapRecord
funding_swap = record swap { state = input_funding }

transitions :
    (transition_swap plain json s1 created input_funding none none stored).0 ≡ ok funding_swap
unfolding transition_swap transition_body validate_transition can_transition_to insert_swap
    insert_body find modify text_eq state_text parse_state debug_text digest_text get_swap
    deserialize_swap append_journal_transaction insert_digest
transitions = refl

transition_swap_result_example :
    (validate_transition created input_funding ≡ ok tt)
    × Moves s1 created input_funding none none stored
        (transition_swap plain json s1 created input_funding none none stored).1
    × (input_funding ≡ input_funding)
    × (s1 ≡ s1)
transition_swap_result_example =
    transition_swap_result plain json s1 created input_funding none none stored funding_swap
      transitions

record_swap_evidence_cases_example :
    ((record_swap_evidence plain json s1 (codes "f") (codes "c") (codes "h") (codes "e") stored).1
      ≡ stored)
    ⊎ Records s1
        (codes "f")
        (codes "c")
        (codes "h")
        (codes "e")
        stored
        (record_swap_evidence plain json s1
          (codes "f")
          (codes "c")
          (codes "h")
          (codes "e")
          stored).1
record_swap_evidence_cases_example =
    record_swap_evidence_cases plain json s1 (codes "f") (codes "c") (codes "h") (codes "e") stored

abbrev moves : List Operation
moves =
    Operation.transition_swap s1 created input_funding none none
    ∷ Operation.transition_swap s1 input_funding failed none none
    ∷ Operation.transition_swap s1 created refunding none none
    ∷ []

stored_state : state_of s1 stored ≡ some created
unfolding state_of insert_swap insert_body find text_eq state_text parse_state
stored_state = refl

run_paid_or_returned_example :
    (t : SwapState) × (state_of s1 (run plain json moves stored) ≡ some t)
    × (created ⟶* t)
    × ((is_paid created && is_returning t) ≡ false)
    × ((is_returning created && is_paid t) ≡ false)
run_paid_or_returned_example = run_paid_or_returned plain json moves s1 created stored stored_state
