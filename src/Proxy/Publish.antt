-- ===== src/Proxy/Publish.antt =====
-- `Proxy::publish_event` of crates/outlay/src/proxy.rs. The relay pool answers with the relays that
-- took the event and those that refused it, each with its reason; both are parameters.
use outlay.Base.{◌⊎◌, Bool, true, false, Option, some, none, List, [], ◌∷◌, ◌≡◌, ◌≢◌, if◌then◌else◌}
use outlay.Base.Opt.{unwrap_or}
use outlay.Base.Res.{Result, ok, err}
use outlay.Base.Text.{Text, codes}
use outlay.Json.{Json}
use outlay.Nostr.{Nostr}
use outlay.Proxy.{ProxyError, publish, publish_timeout}

-- `Output` of `send_event`: the URLs of `success`, and the reasons of `failed` in map order.
pub record Output : Type 0 where
  pub success : List Text
  pub failed : List (Text × Text)

-- What `tokio::time::timeout(PUBLISH_TIMEOUT, client.send_event(&event))` comes to.
pub data Sent : Type 0 where
  elapsed : Sent
  refused : Text → Sent
  answered : Output → Sent

abbrev pub first_reason : List (Text × Text) → Option Text
first_reason [] = none
first_reason ((url, reason) ∷ failed) = some reason

-- `!output.success.is_empty()`
abbrev pub accepted : List Text → Bool
accepted [] = false
accepted (url ∷ urls) = true

module _ (J : Json) (N : Nostr J) where
  open J use {Value}
  open N use {Event, EventId, event_id}

  pub record PublishOutcome : Type 0 where
    pub ok : Bool
    pub event_id : EventId
    pub message : Text

  unfoldable pub outcome : Event → Output → PublishOutcome
  outcome e output = record {
    ok = accepted output.success;
    event_id = event_id e;
    message =
        if accepted output.success
        then []
        else unwrap_or (first_reason output.failed)
            (codes "error: upstream did not accept the event");
  }

  unfoldable pub publish_event : Event → Sent → Result ProxyError PublishOutcome
  unfolding outcome
  publish_event e elapsed = err publish_timeout
  publish_event e (refused reason) = err (publish reason)
  publish_event e (answered output) = ok (outcome e output)

  -- What the report of an answer says, from its two lists.
  abbrev pub Reports : List Text → List (Text × Text) → Bool → Text → Type 0
  Reports success failed taken text =
      ((success ≢ []) × (taken ≡ true) × (text ≡ []))
      ⊎ ((success ≡ [])
          × (taken ≡ false)
          × (text
              ≡ unwrap_or (first_reason failed) (codes "error: upstream did not accept the event")))
