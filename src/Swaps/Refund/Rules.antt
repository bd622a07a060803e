-- ===== src/Swaps/Refund/Rules.antt =====
-- What must have been seen before a refund is broadcast, and the rules that carry it through the calls.
use cross_network_market_mak.Prelude.{
  ℕ, leb, ◌≡◌, refl, Bool, true, false, ◌&&◌, any, [], ◌∷◌, Option, none, some, ok, err, arith,
  Bool-cases, inl, inr,
}
use cross_network_market_mak.Swaps.Error.{SwapError, SwapResult}
use cross_network_market_mak.Swaps.Checks.{has_failed}
use cross_network_market_mak.Swaps.Effects.{
  OutboxKind, funding, claim, refund, kind_eq, FundingOutbox, outbox_eq, Effect, outbox_read,
  outbox_written, broadcast, payment_tracked, invoice_seen, height_seen, Trace, Adapters, World,
  Swap, bind_result, call, call_noting, answer_of, note, file, read_outbox, write_outbox,
  read_or_fail, write_or_fail, write_or_compare,
}
use cross_network_market_mak.Swaps.Orchestrator.Order.{is_durable}
use cross_network_market_mak.Swaps.Orchestrator.Order.Calls.{outbox_eq_refl}
use cross_network_market_mak.Swaps.Refund.{is_canceled_with}

-- The payer's payment was reported as failed.
abbrev pub is_failed_payment : Effect → Bool
is_failed_payment (payment_tracked (some o)) = has_failed o
is_failed_payment _ = false

-- The hold invoice was seen canceled, and accepted with the amount before.
abbrev pub is_canceled_for : ℕ → Effect → Bool
is_canceled_for amount (invoice_seen (some i)) = is_canceled_with amount i
is_canceled_for amount _ = false

-- The outbox of the kind was looked for, and none was read.
abbrev pub is_missing : OutboxKind → Effect → Bool
is_missing k (outbox_read k' none) = kind_eq k k'
is_missing k _ = false

-- The chain was seen at the height or above it.
abbrev pub is_due : ℕ → Effect → Bool
is_due lock (height_seen (some height)) = leb lock height
is_due lock _ = false

-- All of it, and the outbox is on disk.
abbrev pub before_refund : ℕ → ℕ → FundingOutbox → Trace → Bool
before_refund amount lock o t =
    any is_failed_payment t
    && any (is_canceled_for amount) t
    && any (is_missing claim) t
    && any (is_due lock) t
    && any (is_durable o) t

-- Whatever was broadcast was broadcast after all of it.
abbrev pub refunds_checked : ℕ → ℕ → Trace → Bool
refunds_checked amount lock [] = true
refunds_checked amount lock (broadcast o ∷ t) =
    before_refund amount lock o t && refunds_checked amount lock t
refunds_checked amount lock (_ ∷ t) = refunds_checked amount lock t

-- More effects do not take it away.
abbrev pub Keeps : (Trace → Bool) → Type 0
Keeps K = (e : Effect) (t : Trace) → K t ≡ true → K (e ∷ t) ≡ true

pub any-Keeps : (f : Effect → Bool) → Keeps (any f)
any-Keeps f e t h = ground (arith, h)

pub and-Keeps : (K L : Trace → Bool) → Keeps K → Keeps L → Keeps (λ t. K t && L t)
and-Keeps K L k l e t h = ground (arith, k e t, l e t, h)

module _ (amount lock : ℕ) where
  abbrev pub Good : Trace → Type 0
  Good t = refunds_checked amount lock t ≡ true

  abbrev pub Post : {A : Type 0} → (A → Trace → Type 0) → SwapResult A × World → Type 0
  Post Q (ok v, w) = Good w.trace × Q v w.trace
  Post Q (err e, w) = Good w.trace

  pub bind-Post :
      {A B : Type 0} (Q : A → Trace → Type 0) (R : B → Trace → Type 0) (m : SwapResult A × World)
      (f : A → Swap B)
      → Post Q m
      → ((v : A) (w : World) → Good w.trace → Q v w.trace → Post R (f v w))
      → Post R (bind_result m f)
  bind-Post Q R (ok v, w) f (g, q) h = h v w g q
  bind-Post Q R (err e, w) f g h = g

  pub answer-Post :
      {A : Type 0} (Q : A → Trace → Type 0) (r : SwapResult A) (w : World)
      → Good w.trace
      → ((v : A) → r ≡ ok v → Q v w.trace)
      → Post Q (r, w)
  answer-Post Q (ok v) w g h = (g, h v refl)
  answer-Post Q (err e) w g h = g

  pub call-Post :
      {A : Type 0} (Q : A → Trace → Type 0) (answer : Trace → SwapResult A) (e : Effect) (w : World)
      → Good (e ∷ w.trace)
      → ((v : A) → Q v (e ∷ w.trace))
      → Post Q (call answer e w)
  call-Post Q answer e w g h = answer-Post Q (answer w.trace) (note e w) g (λ v _. h v)

  noted-Post :
      {A : Type 0} (Q : A → Trace → Type 0) (r : SwapResult A) (e : Option A → Effect) (w : World)
      → ((o : Option A) → Good (e o ∷ w.trace))
      → ((v : A) → Q v (e (some v) ∷ w.trace))
      → Post Q (r, note (e (answer_of r)) w)
  noted-Post Q (ok v) e w g h = (g (some v), h v)
  noted-Post Q (err x) e w g h = g none

  pub noting-Post :
      {A : Type 0} (Q : A → Trace → Type 0) (answer : Trace → SwapResult A) (e : Option A → Effect)
      (w : World)
      → ((o : Option A) → Good (e o ∷ w.trace))
      → ((v : A) → Q v (e (some v) ∷ w.trace))
      → Post Q (call_noting answer e w)
  noting-Post Q answer e w g h = noted-Post Q (answer w.trace) e w g h

  -- What is known after an outbox was read.
  abbrev pub Found : (Trace → Bool) → OutboxKind → Option FundingOutbox → Trace → Type 0
  Found K k none t = (K t ≡ true) × (any (is_missing k) t ≡ true)
  Found K k (some o) t = (K t ≡ true) × (any (is_durable o) t ≡ true)

  kind_eq_refl : (k : OutboxKind) → kind_eq k k ≡ true
  unfolding kind_eq
  kind_eq_refl funding = refl
  kind_eq_refl claim = refl
  kind_eq_refl refund = refl

  module _ (a : Adapters) (K : Trace → Bool) (keeps : Keeps K) where
    read_or_fail-Post :
        (e : Option SwapError) (k : OutboxKind) (o : Option FundingOutbox) (w : World)
        → file k w ≡ o
        → Good w.trace
        → K w.trace ≡ true
        → Post (Found K k) (read_or_fail e k w)
    unfolding read_or_fail
    read_or_fail-Post (some e) k o w f g h = g
    read_or_fail-Post none k none w f g h =
        rw f (g, (keeps (outbox_read k none) w.trace h, rw (kind_eq_refl k) refl))
    read_or_fail-Post none k (some o) w f g h =
        rw f (g, (keeps (outbox_read k (some o)) w.trace h, rw (outbox_eq_refl o) refl))

    pub read-Post :
        (k : OutboxKind) (w : World)
        → Good w.trace
        → K w.trace ≡ true
        → Post (Found K k) (read_outbox a k w)
    unfolding read_outbox
    read-Post k w g h = read_or_fail-Post (a.file_error w.trace) k (file k w) w refl g h

    abbrev pub Stored : FundingOutbox → Trace → Type 0
    Stored o t = (K t ≡ true) × (any (is_durable o) t ≡ true)

    write_or_compare-Post :
        (e : Option FundingOutbox) (k : OutboxKind) (o : FundingOutbox) (w : World)
        → Good w.trace
        → K w.trace ≡ true
        → Post {A = Unit} (λ _. Stored o) (write_or_compare e k o w)
    unfolding write_or_compare
    write_or_compare-Post none funding o w g h =
        (g, (keeps (outbox_written funding (some o)) w.trace h, rw (outbox_eq_refl o) refl))
    write_or_compare-Post none claim o w g h =
        (g, (keeps (outbox_written claim (some o)) w.trace h, rw (outbox_eq_refl o) refl))
    write_or_compare-Post none refund o w g h =
        (g, (keeps (outbox_written refund (some o)) w.trace h, rw (outbox_eq_refl o) refl))
    write_or_compare-Post (some existing) k o w g h = elim (Bool-cases (outbox_eq existing o)) [
      | inl same ↦
          rw same (g, (keeps (outbox_written k (some o)) w.trace h, rw (outbox_eq_refl o) refl))
      | inr other ↦ rw other g
    ]

    write_or_fail-Post :
        (e : Option SwapError) (left : Bool) (k : OutboxKind) (o : FundingOutbox) (w : World)
        → Good w.trace
        → K w.trace ≡ true
        → Post {A = Unit} (λ _. Stored o) (write_or_fail e left k o w)
    unfolding write_or_fail
    write_or_fail-Post (some e) left k o w g h = g
    write_or_fail-Post none left k o w g h = write_or_compare-Post (file k w) k o w g h

    pub write-Post :
        (k : OutboxKind) (o : FundingOutbox) (w : World)
        → Good w.trace
        → K w.trace ≡ true
        → Post (λ _. Stored o) (write_outbox a k o w)
    unfolding write_outbox
    write-Post k o w g h =
        write_or_fail-Post (a.file_error w.trace) (a.leaves_file w.trace) k o w g h
