-- ===== src/Shim/Publish.antt =====
-- `publish_once` of crates/outlay-shim/src/conn.rs: a client's EVENT becomes one `publish_event`
-- call, and its answer an OK frame. What `call_tool` answers is a parameter: the structured content,
-- if there is any, or the text of the error.
use outlay.Base.{false, Option, []}
use outlay.Base.Opt.{◌>>=◌, unwrap_or}
use outlay.Base.Res.{Result, ok, err}
use outlay.Base.Text.{Text, codes}
use outlay.Json.{Json}
use outlay.Shim.Args.{args}
use outlay.Shim.Translate.{ok_frame}

module _ (J : Json) where
  open J use {Value, Map, null, object, as_str, as_bool, as_object, empty, insert, find}

  -- `Value::get`
  abbrev pub get : Text → Value → Option Value
  get key v = do m ← as_object v; find key m

  unfoldable pub event_id_of : Value → Text
  event_id_of event = unwrap_or (get (codes "id") event >>= as_str) []

  -- The arguments of the call.
  unfoldable pub publish_arguments : Value → Map
  unfolding args
  publish_arguments event = args J (object (insert (codes "event") event empty))

  -- The OK frame of an answer, for a client whose event has the id `id`.
  unfoldable pub answer_frame : Text → Result Text (Option Value) → Text
  answer_frame id (ok content) =
      let sc = unwrap_or content null in
      ok_frame J (unwrap_or (get (codes "event_id") sc >>= as_str) id)
        (unwrap_or (get (codes "ok") sc >>= as_bool) false)
        (unwrap_or (get (codes "message") sc >>= as_str) [])
  answer_frame id (err e) = ok_frame J id false e

  unfoldable pub publish_once : (Map → Result Text (Option Value)) → Value → Text
  unfolding event_id_of publish_arguments answer_frame
  publish_once call event = answer_frame (event_id_of event) (call (publish_arguments event))
