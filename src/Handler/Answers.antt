-- ===== src/Handler/Answers.antt =====
-- crates/outlay/src/handler.rs: what a successful answer to a tool call tells.
use outlay.Base.{Bool, true, false, Option, some, none, List, [], ◌∷◌, ◌≡◌, ◌⊎◌, refl, inl, inr}
use outlay.Base.Res.{Result, ok, err, Result-cases}
use outlay.Base.Text.{Text}
use outlay.Json.{Json}
use outlay.Nostr.{Nostr}
use outlay.Proxy.{ProxyError}
use outlay.Proxy.Publish.{Sent, PublishOutcome, publish_event}
use outlay.Proxy.Subscribe.{run_subscribe}
use outlay.Handler.{
  structured, subscribe_output, parse_filters, Upstream, reply, subscribe_tool, outcome_json,
  publish_event_tool, publish_parsed, subscribe_filters,
}

module _ (J : Json) (N : Nostr J) where
  open J use {Value}
  open N use {Event, Filter}

  reply-eq-ok :
      (r : Option (Result ProxyError (Unit {0}))) (v : Value)
      → reply J N r ≡ some (ok v)
      → (r ≡ some (ok tt)) × (v ≡ structured J (some (subscribe_output J)))
  unfolding reply
  reply-eq-ok none v h = cc
  reply-eq-ok (some (err e)) v h = cc
  reply-eq-ok (some (ok tt)) v h = (refl, cc)

  -- The `subscribe` tool succeeds, with `{"ok": true}`, only where the client opened a stream, every
  -- filter was read, and the subscription ran to its end upstream without an error.
  pub subscribe_tool-eq-ok :
      (stream : Bool) (sid : Text) (filters : List Value) (up : Upstream J N) (v : Value)
      → (subscribe_tool J N stream sid filters up).1 ≡ some (ok v)
      → (stream ≡ true)
        × (v ≡ structured J (some (subscribe_output J)))
        × ((fs : List Filter) × (parse_filters J N filters ≡ ok fs)
            × ((run_subscribe J N sid fs up.upstream_id up.subscribed up.turns up.active).returned
                ≡ some (ok tt)))
  unfolding subscribe_tool subscribe_filters
  subscribe_tool-eq-ok false sid filters up v h = cc
  subscribe_tool-eq-ok true sid filters up v h = elim (Result-cases (parse_filters J N filters)) [
    | inr (e, p) ↦ absurd (cc (rw p at h))
    | inl (fs, p) ↦ let (q, r) = reply-eq-ok _ v (rw p at h) in (refl, r, (fs, p, q))
  ]

  -- Where the `subscribe` tool refuses the request, for want of a stream or for a filter that is not
  -- one, it has not touched the upstream or the stream.
  pub subscribe_tool_quiet :
      (stream : Bool) (sid : Text) (filters : List Value) (up : Upstream J N)
      → (stream ≡ false) ⊎ ((e : Text) × (parse_filters J N filters ≡ err e))
      → (subscribe_tool J N stream sid filters up).0 ≡ []
  unfolding subscribe_tool subscribe_filters
  subscribe_tool_quiet false sid filters up h = refl
  subscribe_tool_quiet true sid filters up (inl h) = cc
  subscribe_tool_quiet true sid filters up (inr (e, p)) = rw p

  publish_parsed-eq-ok :
      (e : Event) (send : Event → Sent) (v : Value)
      → (publish_parsed J N send (ok e)).1 ≡ ok v
      → (out : PublishOutcome J N) × (publish_event J N e (send e) ≡ ok out)
        × (v ≡ structured J (some (outcome_json J N out)))
  unfolding publish_parsed
  publish_parsed-eq-ok e send v h = elim (Result-cases (publish_event J N e (send e))) [
    | inr (x, p) ↦ absurd (cc (rw p at h))
    | inl (out, p) ↦ (out, p, cc (rw p at h))
  ]

  -- The `publish_event` tool succeeds only with the outcome of the one event that it read and sent,
  -- and then that outcome is the structured content.
  pub publish_event_tool-eq-ok :
      (event : Value) (send : Event → Sent) (v : Value)
      → (publish_event_tool J N event send).1 ≡ ok v
      → (e : Event) × (out : PublishOutcome J N) × ((publish_event_tool J N event send).0 ≡ e ∷ [])
        × (N.parse_event event ≡ ok e)
        × (publish_event J N e (send e) ≡ ok out)
        × (v ≡ structured J (some (outcome_json J N out)))
  unfolding publish_event_tool publish_parsed
  publish_event_tool-eq-ok event send v h = elim (Result-cases (N.parse_event event)) [
    | inr (e, p) ↦ absurd (cc (rw p at h))
    | inl (e, p) ↦
        let (out, q, r) = publish_parsed-eq-ok e send v (rw p at h) in (e, out, rw p refl, p, q, r)
  ]
