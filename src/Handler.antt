-- ===== src/Handler.antt =====
-- The rmcp tools of crates/outlay/src/handler.rs. The request context, as far as the code reads it,
-- is whether it carries an `OpenStreamWriter`; the proxy's answers come from Proxy's functions.
pub mod Answers
use outlay.Base.{Bool, true, false, Option, some, none, List, [], ◌∷◌}
use outlay.Base.Res.{Result, ok, err, ◌>>=◌, map_err}
use outlay.Base.Opt.{unwrap_or}
use outlay.Base.Text.{Text, codes}
use outlay.Json.{Json}
use outlay.Nostr.{Nostr}
use outlay.Proxy.{ProxyError, error_text}
use outlay.Proxy.Info.{Response, run_relay_info}
use outlay.Proxy.Publish.{Sent, PublishOutcome, publish_event}
use outlay.Proxy.Subscribe.{Turn, Call, run_subscribe}

-- `ErrorData::invalid_params(text, None)`, the only error that the handler makes.
pub data ErrorData : Type 0 where
  invalid_params : Text → ErrorData

abbrev pub no_stream_text : Text
no_stream_text =
    codes
      "subscribe requires CEP-41 open-stream; the client must advertise support and send a progressToken"

unfoldable pub proxy_error : ProxyError → ErrorData
proxy_error e = invalid_params (error_text e)

module _ (J : Json) where
  open J use {Value, string, boolean, object, empty, insert}

  -- A successful `CallToolResult` is its structured content.
  unfoldable pub structured : Option Value → Value
  structured out = unwrap_or out J.null

  unfoldable pub subscribe_output : Value
  subscribe_output = object (insert (codes "ok") (boolean true) empty)

  module _ (N : Nostr J) where
    open N use {Event, Filter, parse_filter, parse_event, id_json}

    -- `.map(from_value::<Filter>).collect::<Result<_, _>>()`
    unfoldable pub parse_filters : List Value → Result Text (List Filter)
    parse_filters [] = ok []
    parse_filters (v ∷ vs) = do f ← parse_filter v; fs ← parse_filters vs; ok (f ∷ fs)

    -- The upstream's side of one call of the tool.
    pub record Upstream : Type 0 where
      pub upstream_id : Text
      pub subscribed : Result Text (Unit {0})
      pub turns : List (Turn Event)
      pub active : Bool

    -- The answer to a tool call: none as long as the call goes on.
    abbrev pub Reply : Type 0
    Reply = Option (Result ErrorData Value)

    unfoldable pub reply : Option (Result ProxyError (Unit {0})) → Reply
    unfolding proxy_error
    reply none = none
    reply (some (err e)) = some (err (proxy_error e))
    reply (some (ok _)) = some (ok (structured (some subscribe_output)))

    -- The calls that reached the upstream and the writer, and the reply.
    unfoldable pub subscribe_filters :
        Text → Upstream → Result Text (List Filter) → List (Call Filter) × Reply
    unfolding reply
    subscribe_filters subscription_id up (err e) = ([], some (err (invalid_params e)))
    subscribe_filters subscription_id up (ok fs) =
        let run =
          run_subscribe J N subscription_id fs up.upstream_id up.subscribed up.turns up.active in
        (run.calls, reply run.returned)

    unfoldable pub subscribe_tool : Bool → Text → List Value → Upstream → List (Call Filter) × Reply
    unfolding subscribe_filters
    subscribe_tool false subscription_id filters up =
        ([], some (err (invalid_params no_stream_text)))
    subscribe_tool true subscription_id filters up =
        subscribe_filters subscription_id up (parse_filters filters)

    -- `serde_json::to_value(&PublishOutcome)`
    unfoldable pub outcome_json : PublishOutcome J N → Value
    outcome_json r = object (
        insert (codes "message") (string r.message) (
          insert (codes "event_id") (id_json r.event_id)
            (insert (codes "ok") (boolean r.ok) empty)))

    -- The events handed to the upstream, and the reply; `send` is the upstream's answer to one.
    unfoldable pub publish_parsed :
        (Event → Sent) → Result Text Event → List Event × Result ErrorData Value
    unfolding proxy_error
    publish_parsed send (err e) = ([], err (invalid_params e))
    publish_parsed send (ok e) = (
      e ∷ [],
      do
        out ← map_err proxy_error (publish_event J N e (send e))
        ok (structured (some (outcome_json out))),
    )

    unfoldable pub publish_event_tool : Value → (Event → Sent) → List Event × Result ErrorData Value
    unfolding publish_parsed
    publish_event_tool event send = publish_parsed send (parse_event event)

  unfoldable pub relay_info_tool :
      Text → Text → (Text → Option (Response J)) → Option (Result ErrorData Value)
  unfolding proxy_error
  relay_info_tool version upstream_url get = elim (run_relay_info J version upstream_url get) [
    | none ↦ none
    | some (err e) ↦ some (err (proxy_error e))
    | some (ok doc) ↦ some (ok (structured (some doc)))
  ]

-- `ServerInfo`, as far as it is set; the capabilities are whether there are tools.
pub record ServerInfo : Type 0 where
  pub has_tools : Bool
  pub name : Text
  pub version : Text
  pub title : Text
  pub instructions : Text

-- `version` is that of the package.
unfoldable pub get_info : Text → ServerInfo
get_info version = record {
  has_tools = true;
  name = codes "outlay";
  version = version;
  title = codes "outlay — Nostr relay over ContextVM";
  instructions =
      codes
        "Transparent Nostr relay proxy. Call subscribe (streaming) to open a NIP-01 subscription, publish_event to forward a signed event, or relay_info for the upstream's NIP-11 document.";
}
