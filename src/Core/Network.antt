-- ===== src/Core/Network.antt =====
-- src/core/network.rs
use cross_network_market_mak.Prelude.{
  ℕ, ◌≡◌, ◌↔◌, refl, Bool, true, false, Option, none, some, ok, err, if◌then◌else◌, arith,
}
use cross_network_market_mak.Prelude.Text.{Text, text_eq, text_eq_iff, codes}
use cross_network_market_mak.Core.Error.{CoreResult, invalid_network}

pub data Network : Type 0 where
  liquid_regtest bitcoin_regtest lightning_regtest ark_regtest : Network

unfoldable pub is_regtest : Network → Bool
is_regtest liquid_regtest = true
is_regtest bitcoin_regtest = true
is_regtest lightning_regtest = true
is_regtest ark_regtest = true

unfoldable pub block_seconds : Network → Option ℕ
block_seconds bitcoin_regtest = some 600
block_seconds liquid_regtest = some 60
block_seconds lightning_regtest = none
block_seconds ark_regtest = none

-- `Display`.
unfoldable pub to_text : Network → Text
to_text liquid_regtest = codes "liquid-regtest"
to_text bitcoin_regtest = codes "bitcoin-regtest"
to_text lightning_regtest = codes "lightning-regtest"
to_text ark_regtest = codes "ark-regtest"

unfoldable pub from_str : Text → CoreResult Network
from_str value =
    if text_eq value (codes "liquid-regtest")
    then ok liquid_regtest
    else if text_eq value (codes "bitcoin-regtest")
    then ok bitcoin_regtest
    else if text_eq value (codes "lightning-regtest")
    then ok lightning_regtest
    else if text_eq value (codes "ark-regtest")
    then ok ark_regtest
    else err (invalid_network value)

-- The derived `==`.
unfoldable pub network_eq : Network → Network → Bool
network_eq liquid_regtest liquid_regtest = true
network_eq bitcoin_regtest bitcoin_regtest = true
network_eq lightning_regtest lightning_regtest = true
network_eq ark_regtest ark_regtest = true
network_eq _ _ = false

pub network_eq-true : (a b : Network) → network_eq a b ≡ true → a ≡ b
unfolding network_eq
network_eq-true a b h = ground arith

pub network_eq_refl : (a : Network) → network_eq a a ≡ true
unfolding network_eq
network_eq_refl liquid_regtest = refl
network_eq_refl bitcoin_regtest = refl
network_eq_refl lightning_regtest = refl
network_eq_refl ark_regtest = refl

-- A network is read back from its text.
from_str-to_text : (n : Network) → from_str (to_text n) ≡ ok n
unfolding from_str to_text text_eq
from_str-to_text liquid_regtest = refl
from_str-to_text bitcoin_regtest = refl
from_str-to_text lightning_regtest = refl
from_str-to_text ark_regtest = refl

from_str-ok : (t : Text) (n : Network) → from_str t ≡ ok n → t ≡ to_text n
unfolding from_str to_text
from_str-ok t n h = ground (
  arith,
  text_eq_iff t (codes "liquid-regtest"),
  text_eq_iff t (codes "bitcoin-regtest"),
  text_eq_iff t (codes "lightning-regtest"),
  text_eq_iff t (codes "ark-regtest"),
)

-- A text is read as a network if it is the text that the network prints, and only then.
pub from_str_iff : (t : Text) (n : Network) → (from_str t ≡ ok n) ↔ (t ≡ to_text n)
from_str_iff t n = (from_str-ok t n, λ e. rw e (from_str-to_text n))
