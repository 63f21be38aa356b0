-- ===== src/Nostr.antt =====
-- The types of `nostr_sdk` that the proxy and its handler pass through. The crate is not part of
-- the repository, so its opaque types and their (de)serialisation are parameters. Of the two enums
-- that the proxy matches on, the variants that it names are constructors and `other` is the rest.
use outlay.Base.Res.{Result}
use outlay.Base.Text.{Text}
use outlay.Json.{Json}

pub record Nostr (J : Json) : Type 1 where
  pub Event : Type 0
  pub EventId : Type 0
  pub Filter : Type 0
  pub event_id : Event → EventId
  pub event_json : Event → J.Value
  pub id_json : EventId → J.Value
  -- `serde_json::from_value`, with the text of the error
  pub parse_event : J.Value → Result Text Event
  pub parse_filter : J.Value → Result Text Filter

-- `RelayMessage`, over the type of events.
pub data RelayMessage (E : Type 0) : Type 0 where
  event : Text → E → RelayMessage E
  end_of_stored_events : Text → RelayMessage E
  closed : Text → Text → RelayMessage E
  other : RelayMessage E

-- `RelayPoolNotification`: a message comes with the URL of its relay.
pub data Notification (E : Type 0) : Type 0 where
  message : Text → RelayMessage E → Notification E
  shutdown : Notification E
  other : Notification E
