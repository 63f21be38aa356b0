-- ===== src/Tests/Streams.antt =====
-- The subscription stream of the proxy: a run with two clients on one upstream, and the theorems
-- about streams at it.
use outlay.Base.{Bool, true, some, none, List, [], ◌∷◌, ◌≡◌, ◌↔◌, refl, map, All}
use outlay.Base.Res.{ok, ok_or}
use outlay.Base.Text.{Text, codes, ◌==◌}
use outlay.Nostr.{Nostr, RelayMessage, event, end_of_stored_events, closed, message}
use outlay.Proxy.{chunk, map_notification}
use outlay.Proxy.Delivery
use outlay.Proxy.Isolation
use outlay.Proxy.Publish
use outlay.Proxy.Stream
use outlay.Proxy.Subscribe.{
  Wake, notified, lagged, poll, Turn, Run, alive, round, pump, run_subscribe,
}
use outlay.Tests.Wire.{wire, wire_texts}

-- Events are their contents.
abbrev pub plain : Nostr wire
plain = record {
  Event = Text;
  EventId = Text;
  Filter = Text;
  event_id = λ e. e;
  event_json = λ e. 3 ∷ e;
  id_json = λ e. 3 ∷ e;
  parse_event = λ v. ok_or (codes "not an event") (wire.as_str v);
  parse_filter = λ v. ok_or (codes "not a filter") (wire.as_str v);
}

abbrev pub turn : Wake Text → Turn Text
turn w = record { wake = w; write_ok = true; active = true }

abbrev pub relay : Text
relay = codes "wss://up.test"

abbrev mine : RelayMessage Text → Turn Text
mine m = turn (notified (message relay m))

abbrev pub quiet : List (Turn Text)
quiet =
    mine (event (codes "u1") (codes "hello"))
    ∷ mine (event (codes "u2") (codes "for another client"))
    ∷ turn poll
    ∷ mine (end_of_stored_events (codes "u1"))
    ∷ []

abbrev pub ending : List (Turn Text)
ending =
    mine (event (codes "u1") (codes "hello"))
    ∷ mine (closed (codes "u1") (codes "done"))
    ∷ mine (event (codes "u1") (codes "too late"))
    ∷ []

unfoldable pub program : Unit {0}
unfolding pump round run_subscribe map_notification chunk ◌==◌
program = tt

quiet_run :
    map wire.parse_array (pump wire plain (codes "u1") (codes "s") quiet).0
    ≡ some ((3 ∷ codes "EVENT") ∷ (3 ∷ codes "s") ∷ (3 ∷ codes "hello") ∷ [])
      ∷ some ((3 ∷ codes "EOSE") ∷ (3 ∷ codes "s") ∷ [])
      ∷ []
unfolding program
quiet_run = refl

ending_run :
    (run_subscribe wire plain
      (codes "s")
      (codes "f" ∷ [])
      (codes "u1")
      (ok tt)
      ending
      true).returned
    ≡ some (ok tt)
unfolding program
ending_run = refl

abbrev pub shown : Bool → Run Text
shown active =
    run_subscribe wire plain (codes "s") (codes "f" ∷ []) (codes "u1") (ok tt) ending active

run_subscribe-follows_example :
    Stream.follows (codes "u1") Stream.fresh (shown true).calls
    ≡ some (Stream.final true (shown true).returned)
run_subscribe-follows_example =
    Stream.run_subscribe-follows wire plain (codes "s") (codes "f" ∷ []) (codes "u1") (ok tt) ending
      true

run_subscribe-waits_iff_example :
    ((shown true).returned ≡ none)
    ↔ All (λ t. ¬ Stream.Ending wire plain (codes "u1") (codes "s") t t.wake) ending
run_subscribe-waits_iff_example =
    Stream.run_subscribe-waits_iff wire plain (codes "u1") (codes "s") (codes "f") [] ending true

pump-Orderly_example :
    Delivery.Orderly wire plain
      (codes "u1")
      (codes "s")
      (pump wire plain (codes "u1") (codes "s") ending).0
pump-Orderly_example = Delivery.pump-Orderly wire plain (codes "u1") (codes "s") wire_texts ending

pub quiet_goes_on : All (λ t. ¬ Stream.Ending wire plain (codes "u1") (codes "s") t t.wake) quiet
unfolding alive
quiet_goes_on = (λ h. cc (h.1), (λ h. cc, (λ h. cc (h), (λ h. cc (h.1), tt))))

map-parse_array-pump_example :
    map wire.parse_array (pump wire plain (codes "u1") (codes "s") quiet).0
    ≡ map some (Delivery.expected wire plain (codes "u1") (codes "s") quiet)
map-parse_array-pump_example =
    Delivery.map-parse_array-pump wire plain (codes "u1") (codes "s") wire_texts quiet quiet_goes_on

abbrev busier : List (Turn Text)
busier = turn lagged ∷ mine (closed (codes "u3") []) ∷ ending

run_subscribe_isolated_example :
    run_subscribe wire plain (codes "s") (codes "f" ∷ []) (codes "u1") (ok tt) busier true
    ≡ shown true
unfolding ◌==◌
run_subscribe_isolated_example =
    Isolation.run_subscribe_isolated wire plain (codes "u1") (codes "s") (codes "f" ∷ []) (ok tt)
      busier ending true refl

abbrev refusal : Publish.Output
refusal = record { success = []; failed = (relay, codes "blocked") ∷ [] }
