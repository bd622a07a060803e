-- ===== src/Core/Storage/Tables/Laws.antt =====
-- Reading a table after a statement.
use cross_network_market_mak.Prelude.{◌≡◌, refl, Option, none, some, [], ◌∷◌, arith, if◌then◌else◌}
use cross_network_market_mak.Prelude.Text.{Text, text_eq, text_eq_iff, text_eq_refl}
use cross_network_market_mak.Core.Storage.Tables.{Table, find, modify, insert}

abbrev pub map_option {ℓ κ} : {A : Type ℓ} {B : Type κ} → (A → B) → Option A → Option B
map_option f none = none
map_option f (some a) = some (f a)

module _ {R : Type 0} where
  pub find-insert :
      (j k : Text) (r : R) (t : Table R)
      → find j (insert k r t) ≡ (if text_eq k j then some r else find j t)
  unfolding find
  find-insert j k r t = refl

  pub find-modify :
      (j k : Text) (f : R → R) (t : Table R)
      → find j (modify k f t) ≡ (if text_eq k j then map_option f (find j t) else find j t)
  unfolding find modify
  find-modify j k f [] = ground arith
  find-modify j k f ((i, r) ∷ t) =
      ground (arith, text_eq_iff i k, text_eq_iff i j, text_eq_iff k j, find-modify j k f t)

  pub find-insert_same : (k : Text) (r : R) (t : Table R) → find k (insert k r t) ≡ some r
  unfolding find
  find-insert_same k r t = rw (text_eq_refl k) refl
