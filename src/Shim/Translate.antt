-- ===== src/Shim/Translate.antt =====
-- crates/outlay-shim/src/translate.rs: the frames of a vanilla client, and the frames that the shim
-- writes itself.
use outlay.Base.{Bool, Option, some, none, List, [], ◌∷◌, if◌then◌else◌, first}
use outlay.Base.Opt.{◌>>=◌}
use outlay.Base.Text.{Text, codes, ◌==◌}
use outlay.Json.{Json}

pub data ClientMsg (J : Json) : Type 0 where
  req : Text → List J.Value → ClientMsg J
  close : Text → ClientMsg J
  publish : J.Value → ClientMsg J

-- `arr.get(1)` and `arr.iter().skip(2)`.
abbrev pub second {ℓ} : {A : Type ℓ} → List A → Option A
second [] = none
second (a ∷ []) = none
second (a ∷ b ∷ rest) = some b

abbrev pub skip_two {ℓ} : {A : Type ℓ} → List A → List A
skip_two [] = []
skip_two (a ∷ []) = []
skip_two (a ∷ b ∷ rest) = rest

module _ (J : Json) where
  open J use {Value, string, boolean, array, as_str, parse_array, display}

  -- The `match` on the kind of the frame.
  unfoldable pub client_msg : Text → List Value → Option (ClientMsg J)
  client_msg kind arr =
      if kind == codes "REQ"
      then (do sub_id ← second arr >>= as_str; some (req sub_id (skip_two arr)))
      else if kind == codes "CLOSE"
      then (do sub_id ← second arr >>= as_str; some (close sub_id))
      else if kind == codes "EVENT"
      then (do event ← second arr; some (publish event))
      else none

  unfoldable pub parse_client_frame : Text → Option (ClientMsg J)
  unfolding client_msg
  parse_client_frame text = do
    arr ← parse_array text
    kind ← first arr >>= as_str
    client_msg kind arr

  unfoldable pub ok_frame : Text → Bool → Text → Text
  ok_frame event_id accepted message =
      display
        (array (string (codes "OK") ∷ string event_id ∷ boolean accepted ∷ string message ∷ []))

  unfoldable pub notice_frame : Text → Text
  notice_frame message = display (array (string (codes "NOTICE") ∷ string message ∷ []))

  unfoldable pub closed_frame : Text → Text → Text
  closed_frame sub_id message =
      display (array (string (codes "CLOSED") ∷ string sub_id ∷ string message ∷ []))
