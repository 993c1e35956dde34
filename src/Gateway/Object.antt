-- ===== src/Gateway/Object.antt =====
-- The content of an unstructured object: maps, slices, texts and int64, as interface{} values of Go.
use token_control.Common.{Option, none, some, List, [], ◌∷◌, if◌then◌else◌}
use token_control.Common.Int.{ℤ}
use token_control.Text.{Text, ◌==◌}

mutual
  pub data Value : Type 0 where
    text : Text → Value
    number : ℤ → Value
    object : Fields → Value
    array : Values → Value

  pub data Fields : Type 0 where
    no_field : Fields
    with_field : Text → Value → Fields → Fields

  pub data Values : Type 0 where
    no_item : Values
    item : Value → Values → Values

-- A map of one key, and of two.
abbrev pub single : Text → Value → Value
single k v = object (with_field k v no_field)

abbrev pub pair : Text → Value → Text → Value → Value
pair k v l w = object (with_field k v (with_field l w no_field))

abbrev pub to_values : List Value → Values
to_values [] = no_item
to_values (v ∷ vs) = item v (to_values vs)

abbrev pub from_values : Values → List Value
from_values no_item = []
from_values (item v vs) = v ∷ from_values vs

unfoldable pub get_field : Fields → Text → Option Value
get_field no_field key = none
get_field (with_field k v rest) key =
    let later = get_field rest key in if k == key then some v else later

-- The value at a key of a map.
unfoldable pub get : Value → Text → Option Value
get (object fields) key = get_field fields key
get _ key = none

-- The value behind the keys of nested maps.
unfoldable pub nested : Value → List Text → Option Value
nested v [] = some v
nested v (key ∷ keys) = elim (get v key) [ none ↦ none | some inner ↦ nested inner keys ]
