-- ===== src/Swaps/Orchestrator/Order.antt =====
-- The order of the effects of a swap, and the rules that carry it through the runner's calls.
pub mod Calls
pub mod Funding
pub mod Claiming
pub mod Rules
pub mod Forward
pub mod Reverse
use cross_network_market_mak.Prelude.{
  ◌≡◌, refl, Bool, true, false, ◌&&◌, ◌||◌, any, List, [], ◌∷◌, Option, none, some, ok, err,
}
use cross_network_market_mak.Prelude.Text.{option_eq}
use cross_network_market_mak.Core.Primitives.{Bytes}
use cross_network_market_mak.Swaps.Error.{SwapResult}
use cross_network_market_mak.Swaps.Effects.{
  funding, kind_eq, FundingOutbox, outbox_eq, output_settled, Effect, phase, outbox_read,
  outbox_written, broadcast, funding_observed, claim_observed, hold_settled, payment_tracked, Trace,
  World, Swap, bind_result, call, call_noting, answer_of, note, ◌>>=◌, ◌>>◌,
}
use cross_network_market_mak.Swaps.Orchestrator.{
  SwapDirection, depix_to_lightning, lightning_to_depix, has_succeeded,
}

-- The funding output was seen on chain.
abbrev pub is_funded : Effect → Bool
is_funded (funding_observed (some _)) = true
is_funded _ = false

-- The claim was seen on chain.
abbrev pub is_claimed : Effect → Bool
is_claimed (claim_observed (some _)) = true
is_claimed _ = false

-- The payer has paid and knows the preimage.
abbrev pub is_paid_with : Bytes → Effect → Bool
is_paid_with preimage (payment_tracked (some o)) =
    has_succeeded o && option_eq o.payment_preimage (some preimage)
is_paid_with preimage _ = false

-- The outbox is on disk.
abbrev pub is_durable : FundingOutbox → Effect → Bool
is_durable o (outbox_read k (some o')) = outbox_eq o' o
is_durable o (outbox_written k (some o')) = outbox_eq o' o
is_durable o _ = false

-- What must have happened before the claim is broadcast.
abbrev pub before_claim : SwapDirection → Bytes → Trace → Bool
before_claim depix_to_lightning preimage t = any (is_paid_with preimage) t
before_claim lightning_to_depix preimage t = any is_funded t

-- What must have happened before the receiver settles the hold invoice with the preimage.
abbrev pub before_settle : SwapDirection → Trace → Bool
before_settle depix_to_lightning t = any is_funded t
before_settle lightning_to_depix t = any is_claimed t

-- Whether an effect may come after a trace.
abbrev pub may_follow : SwapDirection → Bytes → Effect → Trace → Bool
may_follow d preimage (broadcast o) t =
    any (is_durable o) t && (kind_eq o.kind funding || before_claim d preimage t)
may_follow d preimage (hold_settled x) t = before_settle d t
may_follow d preimage (phase output_settled) t = any (is_paid_with preimage) t
may_follow d preimage _ t = true

unfoldable pub is_ordered : SwapDirection → Bytes → Trace → Bool
is_ordered d preimage [] = true
is_ordered d preimage (e ∷ t) = may_follow d preimage e t && is_ordered d preimage t

module _ (d : SwapDirection) (x : Bytes) where
  -- The order is kept, and a call that succeeds leaves a trace with a property.
  abbrev pub Post : {A : Type 0} → (A → Trace → Type 0) → SwapResult A × World → Type 0
  Post Q (ok a, w) = (is_ordered d x w.trace ≡ true) × Q a w.trace
  Post Q (err e, w) = is_ordered d x w.trace ≡ true

  abbrev pub Triple : {A : Type 0} → (Trace → Type 0) → Swap A → (A → Trace → Type 0) → Type 0
  Triple P m Q = (w : World) → is_ordered d x w.trace ≡ true → P w.trace → Post Q (m w)

  pub bind-Post :
      {A B : Type 0} (Q : A → Trace → Type 0) (R : B → Trace → Type 0) (m : SwapResult A × World)
      (f : A → Swap B)
      → Post Q m
      → ((a : A) → Triple (Q a) (f a) R)
      → Post R (bind_result m f)
  bind-Post Q R (ok a, w) f (o, q) h = h a w o q
  bind-Post Q R (err e, w) f o h = o

  pub bind_triple :
      {A B : Type 0} (P : Trace → Type 0) (Q : A → Trace → Type 0) (R : B → Trace → Type 0)
      (m : Swap A) (f : A → Swap B)
      → Triple P m Q
      → ((a : A) → Triple (Q a) (f a) R)
      → Triple P (m >>= f) R
  bind_triple P Q R m f hm hf w o p = bind-Post Q R (m w) f (hm w o p) hf

  pub then_triple :
      {A B : Type 0} (P : Trace → Type 0) (Q : A → Trace → Type 0) (R : B → Trace → Type 0)
      (m : Swap A) (k : Swap B)
      → Triple P m Q
      → ((a : A) → Triple (Q a) k R)
      → Triple P (m >> k) R
  then_triple P Q R m k hm hk w o p = bind-Post Q R (m w) (λ _. k) (hm w o p) hk

  answer-Post :
      {A : Type 0} (Q : A → Trace → Type 0) (r : SwapResult A) (w : World)
      → is_ordered d x w.trace ≡ true
      → ((a : A) → r ≡ ok a → Q a w.trace)
      → Post Q (r, w)
  answer-Post Q (ok a) w o h = (o, h a refl)
  answer-Post Q (err e) w o h = o

  ordered_cons :
      (e : Effect) (t : Trace)
      → may_follow d x e t ≡ true
      → is_ordered d x t ≡ true
      → is_ordered d x (e ∷ t) ≡ true
  unfolding is_ordered
  ordered_cons e t m o = rw (m, o) refl

  -- A result that is already known.
  pub lift_triple :
      {A : Type 0} (P : Trace → Type 0) (Q : A → Trace → Type 0) (r : SwapResult A)
      → ((a : A) (t : Trace) → r ≡ ok a → P t → Q a t)
      → Triple P (λ w. (r, w)) Q
  lift_triple P Q r h w o p = answer-Post Q r w o (λ a e. h a w.trace e p)

  -- A call that may come now.
  pub call_triple :
      {A : Type 0} (P : Trace → Type 0) (Q : A → Trace → Type 0) (answer : Trace → SwapResult A)
      (e : Effect)
      → ((t : Trace) → P t → may_follow d x e t ≡ true)
      → ((a : A) (t : Trace) → P t → Q a (e ∷ t))
      → Triple P (call answer e) Q
  call_triple P Q answer e m h w o p =
      answer-Post Q (answer w.trace) (note e w) (ordered_cons e w.trace (m w.trace p) o)
        (λ a _. h a w.trace p)

  noting-Post :
      {A : Type 0} (Q : A → Trace → Type 0) (r : SwapResult A) (e : Option A → Effect) (w : World)
      → is_ordered d x w.trace ≡ true
      → ((o : Option A) → may_follow d x (e o) w.trace ≡ true)
      → ((a : A) → Q a (e (some a) ∷ w.trace))
      → Post Q (r, note (e (answer_of r)) w)
  noting-Post Q (ok a) e w o m h = (ordered_cons (e (some a)) w.trace (m (some a)) o, h a)
  noting-Post Q (err x) e w o m h = ordered_cons (e none) w.trace (m none) o

  pub noting_triple :
      {A : Type 0} (P : Trace → Type 0) (Q : A → Trace → Type 0) (answer : Trace → SwapResult A)
      (e : Option A → Effect)
      → ((o : Option A) (t : Trace) → P t → may_follow d x (e o) t ≡ true)
      → ((a : A) (t : Trace) → P t → Q a (e (some a) ∷ t))
      → Triple P (call_noting answer e) Q
  noting_triple P Q answer e m h w o p =
      noting-Post Q (answer w.trace) e w o (λ a. m a w.trace p) (λ a. h a w.trace p)

-- A property that more effects do not take away.
abbrev pub Stable : (Trace → Type 0) → Type 0
Stable P = (e : Effect) (t : Trace) → P t → P (e ∷ t)
