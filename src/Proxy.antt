-- ===== src/Proxy.antt =====
-- crates/outlay/src/proxy.rs: the errors, the outcome of a notification and the mapping from the
-- upstream's notifications to NIP-01 chunks. The children hold the subscription loop (`Subscribe`),
-- publishing (`Publish`), the NIP-11 document (`Origin`, `Info`) and what is proved of them.
pub mod Chunks
pub mod Subscribe
pub mod Stream
pub mod Isolation
pub mod Delivery
pub mod Publish
pub mod Origin
pub mod Info
pub mod Overlay
pub mod RelayInfo
use outlay.Base.{Option, some, none, List, [], ◌∷◌, if◌then◌else◌, ◌++◌}
use outlay.Base.Opt.{unwrap_or}
use outlay.Base.Text.{Text, codes, ◌==◌}
use outlay.Json.{Json}
use outlay.Nostr.{
  Nostr, RelayMessage, event, end_of_stored_events, closed, Notification, message, shutdown,
}

pub data ProxyError : Type 0 where
  init connect : Text → ProxyError
  empty_filters : ProxyError
  subscribe publish : Text → ProxyError
  publish_timeout : ProxyError
  relay_info : Text → ProxyError

-- The `#[error]` texts.
unfoldable pub error_text : ProxyError → Text
error_text (init e) = codes "upstream relay pool init failed: " ++ e
error_text (connect e) = codes "upstream relay connect failed: " ++ e
error_text empty_filters = codes "subscribe filters must be non-empty"
error_text (subscribe e) = codes "upstream subscribe failed: " ++ e
error_text (publish e) = codes "upstream publish failed: " ++ e
error_text publish_timeout = codes "upstream did not acknowledge the event within timeout"
error_text (relay_info e) = codes "relay_info: " ++ e

pub data Forward : Type 0 where
  continue stop : Text → Forward

module _ (J : Json) where
  open J use {Value, string, array, to_string}

  unfoldable pub chunk : Value → Text
  chunk parts = unwrap_or (to_string parts) (codes "[]")

  module _ (N : Nostr J) where
    open N use {Event, event_json}

    map_message : RelayMessage Event → Text → Text → Option Forward
    map_message (event sid e) upstream_id client_sub =
        if sid == upstream_id
        then some (
            continue
              (chunk (array (string (codes "EVENT") ∷ string client_sub ∷ event_json e ∷ []))))
        else none
    map_message (end_of_stored_events sid) upstream_id client_sub =
        if sid == upstream_id
        then some (continue (chunk (array (string (codes "EOSE") ∷ string client_sub ∷ []))))
        else none
    map_message (closed sid reason) upstream_id client_sub =
        if sid == upstream_id
        then some (
            stop (chunk (array (string (codes "CLOSED") ∷ string client_sub ∷ string reason ∷ []))))
        else none
    map_message _ upstream_id client_sub = none

    unfoldable pub map_notification : Notification Event → Text → Text → Option Forward
    unfolding map_message
    map_notification (message url msg) upstream_id client_sub =
        map_message msg upstream_id client_sub
    map_notification shutdown upstream_id client_sub = some (
        stop (
          chunk (
            array (
              string (codes "CLOSED")
              ∷ string client_sub
              ∷ string (codes "error: upstream relay pool shut down")
              ∷ []))))
    map_notification _ upstream_id client_sub = none
