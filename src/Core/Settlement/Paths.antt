-- ===== src/Core/Settlement/Paths.antt =====
-- What a swap can go through: paths along the accepted transitions.
use cross_network_market_mak.Prelude.{ℕ, suc, ◌+◌, ◌≤◌, ◌<◌, ◌≡◌, Bool, true, false, ok, arith}
use cross_network_market_mak.Core.Settlement.{
  SwapState, created, input_funding, input_locked, output_pending, output_unknown, output_settled,
  claim_pending, settled, refunding, refunded, failed, can_transition_to, validate_transition,
}

infix 40 ◌⟶*◌
-- Zero or more transitions, each of which `validate_transition` accepts.
pub data ◌⟶*◌ (s : SwapState) : SwapState → Type 0 where
  here : s ⟶* s
  then : {t u : SwapState} → s ⟶* t → validate_transition t u ≡ ok tt → s ⟶* u

-- The payout side is settled; nothing of the input may go back to the taker.
abbrev pub is_paid : SwapState → Bool
is_paid output_settled = true
is_paid claim_pending = true
is_paid settled = true
is_paid _ = false

-- The input goes back, or the swap never had one.
abbrev pub is_returning : SwapState → Bool
is_returning refunding = true
is_returning refunded = true
is_returning failed = true
is_returning _ = false

step_paid :
    (s t : SwapState) → is_paid s ≡ true → validate_transition s t ≡ ok tt → is_paid t ≡ true
unfolding validate_transition can_transition_to
step_paid s t p h = ground arith

step_returning :
    (s t : SwapState)
    → is_returning s ≡ true
    → validate_transition s t ≡ ok tt
    → is_returning t ≡ true
unfolding validate_transition can_transition_to
step_returning s t p h = ground arith

pub paid_stays : {s t : SwapState} → s ⟶* t → is_paid s ≡ true → is_paid t ≡ true
paid_stays here p = p
paid_stays (then {t = t} {u = u} r h) p = step_paid t u (paid_stays r p) h

pub returning_stays : {s t : SwapState} → s ⟶* t → is_returning s ≡ true → is_returning t ≡ true
returning_stays here p = p
returning_stays (then {t = t} {u = u} r h) p = step_returning t u (returning_stays r p) h

not_both : (s : SwapState) → is_paid s ≡ true → is_returning s ≡ true → ⊥
not_both s p q = ground arith

-- A swap whose output is paid is never refunded or failed later, and a swap that is being refunded
-- is never paid later.
pub paid_or_returned :
    {s t : SwapState}
    → s ⟶* t
    → ((is_paid s ≡ true) → is_returning t ≡ false) × ((is_returning s ≡ true) → is_paid t ≡ false)
paid_or_returned {s} {t} r =
    (λ p. ground (arith, paid_stays r p), λ q. ground (arith, returning_stays r q))

-- A position that falls along every transition.
abbrev pub rank : SwapState → ℕ
rank created = 8
rank input_funding = 7
rank input_locked = 6
rank output_pending = 5
rank output_unknown = 4
rank output_settled = 3
rank claim_pending = 2
rank settled = 0
rank refunding = 1
rank refunded = 0
rank failed = 0

step_descends : (s t : SwapState) → validate_transition s t ≡ ok tt → rank t < rank s
unfolding validate_transition can_transition_to
step_descends s t h = ground arith

abbrev pub steps : {s t : SwapState} → s ⟶* t → ℕ
steps here = 0
steps (then r h) = suc (steps r)

-- From any state a swap makes at most as many transitions as its rank falls.
pub steps_bounded : {s t : SwapState} (r : s ⟶* t) → steps r + rank t ≤ rank s
steps_bounded here = omega arith
steps_bounded (then {t = t} {u = u} r h) = omega (arith, steps_bounded r, step_descends t u h)

pub ⟶*-append : {s t u : SwapState} → s ⟶* t → t ⟶* u → s ⟶* u
⟶*-append r here = r
⟶*-append r (then q h) = then (⟶*-append r q) h
