-- ===== src/Shim/Args.antt =====
-- `args` of crates/outlay-shim/src/transport.rs: the arguments of a tool call, from a JSON object.
use outlay.Base.{Option, some, none}
use outlay.Json.{Json}

module _ (J : Json) where
  open J use {Value, Map, as_object, empty}

  abbrev pub or_empty : Option Map → Map
  or_empty (some m) = m
  or_empty none = empty

  unfoldable pub args : Value → Map
  args v = or_empty (as_object v)
