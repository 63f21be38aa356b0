-- ===== src/Shim/EndToEnd.antt =====
-- Publishing from a vanilla client through the shim to the upstream and back:
-- crates/outlay-shim/src/conn.rs, crates/outlay/src/handler.rs and crates/outlay/src/proxy.rs
-- together.
use outlay.Base.{Option, some, none, ◌≡◌, refl, ◌∙◌}
use outlay.Base.Res.{Result, ok, err}
use outlay.Base.Text.{Text, codes, ◌==◌}
use outlay.Handler.{ErrorData, outcome_json, structured, publish_event_tool}
use outlay.Json.{Json}
use outlay.Json.Laws.{HasAccessors, HasMaps, find-insert_self, find-insert_apart}
use outlay.Nostr.{Nostr}
use outlay.Proxy.Publish.{Output, Sent, answered, accepted, PublishOutcome, outcome, publish_event}
use outlay.Shim.Args.{args}
use outlay.Shim.Publish.{get, event_id_of, publish_arguments, answer_frame, publish_once}
use outlay.Shim.Translate.{ok_frame}

module _ (J : Json) (N : Nostr J) where
  open J use {Value, Map, as_str, as_object, find}
  open N use {Event, EventId, event_id, id_json, parse_event}

  -- outlay's side of the call: the tool finds the event in its arguments, and rmcp carries its
  -- structured content back, or the text of its error.
  abbrev pub carry : (ErrorData → Text) → Result ErrorData Value → Result Text (Option Value)
  carry show (ok v) = ok (some v)
  carry show (err e) = err (show e)

  abbrev pub serve_found :
      (ErrorData → Text) → (Event → Sent) → Option Value → Result Text (Option Value)
  serve_found show send none = err (codes "missing field `event`")
  serve_found show send (some event) = carry show (publish_event_tool J N event send).1

  abbrev pub serve_publish : (ErrorData → Text) → (Event → Sent) → Map → Result Text (Option Value)
  serve_publish show send arguments = serve_found show send (find (codes "event") arguments)

  module _ (A : HasAccessors J) (L : HasMaps J) where
    get-outcome_json :
        (r : PublishOutcome J N)
        → (get J (codes "ok") (outcome_json J N r) ≡ some (J.boolean r.ok))
          × (get J (codes "event_id") (outcome_json J N r) ≡ some (id_json r.event_id))
          × (get J (codes "message") (outcome_json J N r) ≡ some (J.string r.message))
    unfolding outcome_json ◌==◌
    get-outcome_json r = (
      rw (A.as_object-object) (
          find-insert_apart J L _ _ _ _ refl
          ∙ find-insert_apart J L _ _ _ _ refl
          ∙ find-insert_self J L _ _ _),
      rw (A.as_object-object) (find-insert_apart J L _ _ _ _ refl ∙ find-insert_self J L _ _ _),
      rw (A.as_object-object) (find-insert_self J L _ _ _),
    )

    answer_frame-outcome :
        (id hex : Text) (r : PublishOutcome J N)
        → as_str (id_json r.event_id) ≡ some hex
        → answer_frame J id (ok (some (outcome_json J N r))) ≡ ok_frame J hex r.ok r.message
    unfolding answer_frame
    answer_frame-outcome id hex r h =
        let (p, q, s) = get-outcome_json r in
        cc (p, q, s, h, A.as_bool-boolean r.ok, A.as_str-string r.message)

    tool_answer :
        (send : Event → Sent) (event : Value) (e : Event) (output : Output)
        → parse_event event ≡ ok e
        → send e ≡ answered output
        → (publish_event_tool J N event send).1 ≡ ok (outcome_json J N (outcome J N e output))
    unfolding publish_event_tool publish_event structured
    tool_answer send event e output p q = rw (p, q, publish_event_tool, publish_event)

    serve_answer :
        (show : ErrorData → Text) (send : Event → Sent) (event : Value) (e : Event)
        (output : Output)
        → parse_event event ≡ ok e
        → send e ≡ answered output
        → serve_publish show send (publish_arguments J event)
          ≡ ok (some (outcome_json J N (outcome J N e output)))
    unfolding publish_arguments args
    serve_answer show send event e output p q = rw (
      A.as_object-object,
      find-insert_self J L (codes "event") event J.empty,
      tool_answer send event e output p q,
    )

    -- The OK frame that a vanilla client gets for a well-formed event carries the id of the event
    -- that was forwarded, and says that it was accepted exactly when a relay of the upstream took it,
    -- with the upstream's own reason if none did.
    pub publish_once-outcome :
        (show : ErrorData → Text) (send : Event → Sent) (event : Value) (e : Event)
        (output : Output) (hex : Text)
        → parse_event event ≡ ok e
        → send e ≡ answered output
        → as_str (id_json (event_id e)) ≡ some hex
        → publish_once J (serve_publish show send) event
          ≡ ok_frame J hex (accepted output.success) (outcome J N e output).message
    unfolding publish_once outcome
    publish_once-outcome show send event e output hex p q h =
        rw (serve_answer show send event e output p q)
          (answer_frame-outcome (event_id_of J event) hex (outcome J N e output) h)
