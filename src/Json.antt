-- ===== src/Json.antt =====
-- The `serde_json` crate, as the code uses it: values, maps, the accessors and the two directions
-- between values and text. It is not part of the repository, so it is a parameter; `Json.Laws` says
-- what its documentation promises.
pub mod Laws
use outlay.Base.{ℕ, Bool, Option, List, true, if◌then◌else◌}
use outlay.Base.Text.{Text}

pub record Json : Type 1 where
  pub Value : Type 0
  -- `serde_json::Map<String, Value>`
  pub Map : Type 0
  pub null : Value
  pub boolean : Bool → Value
  pub string : Text → Value
  pub number : ℕ → Value
  pub array : List Value → Value
  pub object : Map → Value
  pub as_str : Value → Option Text
  pub as_bool : Value → Option Bool
  pub as_object : Value → Option Map
  pub as_array : Value → Option (List Value)
  -- `Map::new`, `insert`, `get`, `remove` (the map that is left) and `is_empty`
  pub empty : Map
  pub insert : Text → Value → Map → Map
  pub find : Text → Map → Option Value
  pub remove : Text → Map → Map
  pub is_empty : Map → Bool
  -- `serde_json::from_str::<Vec<Value>>(text).ok()`
  pub parse_array : Text → Option (List Value)
  -- `serde_json::to_string`, `to_string_pretty` and `Value::to_string`
  pub to_string : Value → Option Text
  pub to_string_pretty : Value → Option Text
  pub display : Value → Text
