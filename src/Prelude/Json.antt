-- ===== src/Prelude/Json.antt =====
-- `serde_json::Value`. A number is the text that it prints as.
use cross_network_market_mak.Prelude.Tests.{if◌then◌else◌}
use cross_network_market_mak.Prelude.Text.{Text, text_eq}
use mathlib.Core.Bool.{Bool}
use mathlib.Core.Option.{Option, none, some}
use mathlib.Core.List.{List, [], ◌∷◌}

mutual
  pub data Value : Type 0 where
    null : Value
    boolean : Bool → Value
    number : Text → Value
    string : Text → Value
    array : Items → Value
    object : Fields → Value

  pub data Items : Type 0 where
    nil : Items
    cons : Value → Items → Items

  pub data Fields : Type 0 where
    end : Fields
    field : Text → Value → Fields → Fields

unfoldable pub find_field : Text → Fields → Option Value
find_field k end = none
find_field k (field j v fs) = if text_eq j k then some v else find_field k fs

-- `Value::get`.
unfoldable pub get : Value → Text → Option Value
unfolding find_field
get (object fs) k = find_field k fs
get _ k = none

abbrev pub as_str : Value → Option Text
as_str (string s) = some s
as_str _ = none

abbrev pub as_bool : Value → Option Bool
as_bool (boolean b) = some b
as_bool _ = none

abbrev pub to_list : Items → List Value
to_list nil = []
to_list (cons v vs) = v ∷ to_list vs

abbrev pub as_array : Value → Option (List Value)
as_array (array vs) = some (to_list vs)
as_array _ = none
