-- ===== src/Json/Laws.antt =====
-- What the documentation of `serde_json` promises of the parts that the code relies on.
use outlay.Base.{Bool, true, false, some, none, List, ◌≡◌, ◌≢◌, ◌∙◌, arith, if◌then◌else◌}
use outlay.Base.Text.{Text, ◌==◌, ==_refl, ==_iff, ne_of_test}
use outlay.Json.{Json}

module _ (J : Json) where
  open J use {Value, Map, boolean, string, array, object, as_str, as_bool, as_object, as_array}

  -- Reading back a value by the accessor of its kind.
  pub record HasAccessors : Type 0 where
    pub as_str-string : (s : Text) → as_str (string s) ≡ some s
    pub as_bool-boolean : (b : Bool) → as_bool (boolean b) ≡ some b
    pub as_object-object : (m : Map) → as_object (object m) ≡ some m
    pub as_array-array : (vs : List Value) → as_array (array vs) ≡ some vs

module _ (J : Json) where
  open J use {Value, Map, empty, insert, find, remove, is_empty}

  -- A map holds one value for each key.
  pub record HasMaps : Type 0 where
    pub find-empty : (j : Text) → find j empty ≡ none
    pub find-insert :
        (k j : Text) (v : Value) (m : Map)
        → find j (insert k v m) ≡ (if k == j then some v else find j m)
    pub find-remove :
        (k j : Text) (m : Map) → find j (remove k m) ≡ (if k == j then none else find j m)
    pub is_empty-empty : is_empty empty ≡ true
    pub is_empty-insert : (k : Text) (v : Value) (m : Map) → is_empty (insert k v m) ≡ false

module _ (J : Json) where
  open J use {Value, array, parse_array, to_string, display}

  -- A value has a text, and the text of an array parses to the array. The parser's limit on nesting and
  -- the rounding of floats are left out: the program prints arrays of strings, Booleans and events,
  -- and an event has integers, strings and lists of lists of strings.
  pub record HasTexts : Type 0 where
    pub to_string-display : (v : Value) → to_string v ≡ some (display v)
    pub parse_array-display : (vs : List Value) → parse_array (display (array vs)) ≡ some vs

-- The laws of maps with the test on the keys decided.
module _ (J : Json) (L : HasMaps J) where
  open J use {Value, Map, insert, find, remove}

  pub find-insert_self : (k : Text) (v : Value) (m : Map) → find k (insert k v m) ≡ some v
  find-insert_self k v m = L.find-insert k k v m ∙ rw (==_refl k)

  pub find-insert_ne : (k j : Text) (v : Value) (m : Map) → k ≢ j → find j (insert k v m) ≡ find j m
  find-insert_ne k j v m n = L.find-insert k j v m ∙ ground (arith, ==_iff k j)

  -- For keys that a test tells apart.
  pub find-insert_apart :
      (k j : Text) (v : Value) (m : Map) → (k == j) ≡ false → find j (insert k v m) ≡ find j m
  find-insert_apart k j v m h = find-insert_ne k j v m (ne_of_test h)

  pub find-remove_ne : (k j : Text) (m : Map) → k ≢ j → find j (remove k m) ≡ find j m
  find-remove_ne k j m n = L.find-remove k j m ∙ ground (arith, ==_iff k j)

  pub find-remove_self : (k : Text) (m : Map) → find k (remove k m) ≡ none
  find-remove_self k m = L.find-remove k k m ∙ rw (==_refl k)
