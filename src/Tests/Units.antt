-- ===== src/Tests/Units.antt =====
-- The unit tests that stand in crates/outlay/src/main.rs and proxy.rs and in
-- crates/outlay-shim/src/main.rs and transport.rs, run on the model. Tests of third-party parameters
-- have no counterpart.
use outlay.Base.{eqb, Option, some, none, List, [], ◌∷◌, ◌≡◌, refl, if◌then◌else◌}
use outlay.Base.Text.{Text, codes, ◌==◌, to_ascii_lowercase, split, strip_prefix, starts_with}
use outlay.Handler.{get_info}
use outlay.Nostr.{Notification, RelayMessage, event, end_of_stored_events, closed, message}
use outlay.Proxy.{Forward, continue, stop, map_notification}
use outlay.Proxy.Origin.{nip11_origin}
use outlay.Shim.Urls.{resolve_relay_urls}
use outlay.Startup.{https_url}
use outlay.Tests.Streams.{plain, program}
use outlay.Tests.Wire.{wire}

-- main.rs of both programs
https_url_swaps_ws_schemes :
    (https_url (codes "wss://nostr.wtf") ≡ codes "https://nostr.wtf")
    × (https_url (codes "ws://127.0.0.1:8086") ≡ codes "http://127.0.0.1:8086")
    × (https_url (codes "https://nostr.wtf") ≡ codes "https://nostr.wtf")
    × (https_url (codes "nostr.wtf") ≡ codes "https://nostr.wtf")
unfolding https_url strip_prefix starts_with
https_url_swaps_ws_schemes = (refl, refl, refl, refl)

-- transport.rs: `RelayUrl` lowers the host and drops a closing slash.
abbrev canonical : Text → Text
canonical [] = []
canonical (c ∷ []) = if eqb c b'/' then [] else c ∷ []
canonical (c ∷ d ∷ s) = c ∷ canonical (d ∷ s)

abbrev norm : Text → Option Text
norm u = some (to_ascii_lowercase (canonical u))

abbrev loopback : Text
loopback = codes "ws://127.0.0.1:8086/"

resolve_relay_urls_runs :
    (resolve_relay_urls norm (codes "wss://Nostr.WTF/" ∷ []) [] [] (some loopback) ≡ loopback ∷ [])
    × (resolve_relay_urls norm
          (codes "wss://nostr.wtf" ∷ [])
          []
          (codes "wss://relay.damus.io" ∷ [])
          (some loopback)
        ≡ codes "wss://relay.damus.io" ∷ [])
    × (resolve_relay_urls norm
          (codes "wss://nostr.wtf" ∷ [])
          (codes "wss://nostr.wtf" ∷ [])
          (codes "wss://nostr.wtf" ∷ codes "wss://relay.damus.io" ∷ [])
          (some loopback)
        ≡ loopback ∷ codes "wss://relay.damus.io" ∷ [])
    × (resolve_relay_urls norm (codes "wss://nostr.wtf" ∷ []) (codes "wss://nostr.wtf" ∷ []) [] none
        ≡ codes "wss://nostr.wtf" ∷ [])
unfolding resolve_relay_urls ◌==◌ to_ascii_lowercase
resolve_relay_urls_runs = (refl, refl, refl, refl)

-- proxy.rs
abbrev from_relay : RelayMessage Text → Notification Text
from_relay m = message (codes "wss://up.test") m

abbrev mapped : RelayMessage Text → Option Forward
mapped m = map_notification wire plain (from_relay m) (codes "upstream-1") (codes "client-sub")

abbrev frame : Text → List wire.Value → Text
frame tag rest = wire.array (wire.string tag ∷ wire.string (codes "client-sub") ∷ rest)

maps_messages_for_our_sub :
    (mapped (event (codes "upstream-1") (codes "hello"))
      ≡ some (continue (frame (codes "EVENT") (wire.string (codes "hello") ∷ []))))
    × (mapped (end_of_stored_events (codes "upstream-1"))
        ≡ some (continue (frame (codes "EOSE") [])))
    × (mapped (closed (codes "upstream-1") (codes "restricted: not allowed"))
        ≡ some (stop (frame (codes "CLOSED") (wire.string (codes "restricted: not allowed") ∷ []))))
    × (mapped (event (codes "upstream-2") (codes "hello")) ≡ none)
unfolding program
maps_messages_for_our_sub = (refl, refl, refl, refl)

nip11_origin_converts_scheme_and_strips_path :
    (nip11_origin (codes "wss://relay.primal.net") ≡ some (codes "https://relay.primal.net"))
    × (nip11_origin (codes "ws://localhost:8080") ≡ some (codes "http://localhost:8080"))
    × (nip11_origin (codes "wss://relay.example.com/some/path?x=1")
        ≡ some (codes "https://relay.example.com"))
    × (nip11_origin (codes "ftp://host") ≡ none)
unfolding nip11_origin strip_prefix split
nip11_origin_converts_scheme_and_strips_path = (refl, refl, refl, refl)

-- handler.rs
names_itself : (get_info (codes "0.1.0")).name ≡ codes "outlay"
unfolding get_info
names_itself = refl
