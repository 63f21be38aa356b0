-- ===== src/Tests/Streamed.antt =====
-- A client's subscription from end to end: the theorem at a run with two clients on one upstream.
use outlay.Base.{
  ℕ, arith, update, Bool, true, false, Option, some, none, List, [], ◌∷◌, ◌++◌, ◌≡◌, refl, map,
}
use outlay.Base.Res.{Result, ok, err}
use outlay.Base.Text.{Text, codes}
use outlay.Handler.{subscribe_tool, ErrorData, parse_filters, relay_info_tool}
use outlay.Nostr.{closed, message}
use outlay.Shim.Conn.Writer.{
  Writer, Sender, sending, dropped, Channel, Step, send, Reach, start, later,
}
use outlay.Shim.Conn.Loop.{subscribe_loop, sent_by}
use outlay.Shim.Streaming.OnWire
use outlay.Proxy.Delivery.{expected, values_of}
use outlay.Proxy.Subscribe.{
  Call, notified, lagged, subscribe_with_id, write, unsubscribe, close, Turn,
}
use outlay.Shim.Conn.Loop.{Round, Output, chunk, ended, forward}
use outlay.Shim.Streaming.{IsStream, subscribe_params, subscribe_arguments}
use outlay.Shim.Conn.Writer.Order.{from}
use outlay.Shim.Streaming.Calls
use outlay.Shim.Streaming.Delivery
use outlay.Proxy.RelayInfo
use outlay.Shim.Document
use outlay.Shim.Page.{render}
use outlay.Shim.Server.{Servers, jumble_link, serve_pubkey}
use outlay.Tests.Routes.{config, keys, parsed, parsed_one}
use outlay.Tests.Upstream.{response, origin_of_relay}
use outlay.Tests.Streams.{plain, program, quiet, quiet_goes_on, relay, turn}
use outlay.Tests.Wire.{wire, wire_accessors, wire_maps, wire_texts}

-- The stream of a writer that nothing disturbs.
abbrev carry : List (Call Text) → List Round
carry [] = []
carry (write c ∷ calls) = chunk c true ∷ carry calls
carry (close ∷ calls) = ended ∷ carry calls
carry (Call.start ∷ calls) = carry calls
carry (subscribe_with_id id fs ∷ calls) = carry calls
carry (unsubscribe id ∷ calls) = carry calls

carry-IsStream : IsStream carry
carry-IsStream = record {
  carry-nil = refl;
  carry-write = λ c calls. refl;
  carry-close = λ calls. refl;
  carry-start = λ calls. refl;
  carry-subscribe = λ id fs calls. refl;
  carry-unsubscribe = λ id calls. refl;
}

abbrev filters : List wire.Value
filters = wire.string (codes "f") ∷ []

abbrev heard : List (Turn Text) → List Output × Bool
heard =
    Delivery.heard wire wire_accessors wire_maps wire_texts plain carry carry-IsStream (codes "u1")
      (codes "token") (codes "s") filters

subscribe_loop-expected_example :
    ((frames : List Text) × (heard quiet ≡ (map forward frames, false))
      × (map wire.parse_array frames
          ≡ map some (expected wire plain (codes "u1") (codes "s") quiet)))
    × ((reason : Text) (t : Turn Text) (us : List (Turn Text))
        → Calls.Closes wire plain (codes "u1") (codes "s") reason t
        → (frames : List Text) × (heard (quiet ++ t ∷ us) ≡ (map forward frames, true))
          × (map wire.parse_array frames
              ≡ map some (expected wire plain (codes "u1") (codes "s") quiet)
                ++ some (values_of wire plain (codes "u1") (codes "s") (closed (codes "u1") reason))
                  ∷ []))
unfolding parse_filters
subscribe_loop-expected_example =
    Delivery.subscribe_loop-expected wire wire_accessors wire_maps wire_texts plain carry
      carry-IsStream (codes "u1") (codes "token") (codes "s") filters (codes "f") [] quiet refl
      quiet_goes_on

-- A successful answer is carried back, an error as one text.
abbrev carried : Option (Result ErrorData wire.Value) → Result Text (Option wire.Value)
carried (some (ok v)) = ok (some v)
carried _ = err (codes "error")

abbrev proxied : Text
proxied = codes "wss://relay.test/path"

-- Every server is an outlay in front of that relay.
abbrev outlays : Servers keys wire
outlays = record {
  Peer = Text;
  get = λ p. ok p.hex;
  call_tool = λ peer name. carried (relay_info_tool wire (codes "1.0") proxied response);
}

serve_pubkey-AnswersTo_example :
    (out : wire.Map) × (serve_pubkey keys wire outlays config none (codes " npub1")
      ≡ render wire (wire.object out) none (jumble_link config (codes "npub1")))
    × RelayInfo.AnswersTo wire (codes "1.0") wire_maps (response (codes "https://relay.test")) out
serve_pubkey-AnswersTo_example =
    Document.serve_pubkey-AnswersTo keys wire wire_maps outlays (codes "1.0") config none
      (codes " npub1") parsed (codes "npub1") proxied (codes "https://relay.test") response
      parsed_one refl (λ v h. rw h) origin_of_relay

-- The relay closes the subscription in the end, and speaks on.
abbrev closing : Turn Text
closing = turn (notified (message relay (closed (codes "u1") (codes "done"))))

abbrev whole : List (Turn Text)
whole = quiet ++ closing ∷ turn lagged ∷ []

-- The subscription is the first of two senders.
abbrev senders : ℕ → Sender
senders =
    update (update (λ i. dropped) 0 (sending (sent_by (heard whole).0))) 1
      (sending (codes "ok" ∷ []))

abbrev event_frame : Text
event_frame =
    wire.array
      (wire.string (codes "EVENT") ∷ wire.string (codes "s") ∷ wire.string (codes "hello") ∷ [])

abbrev other_frames : List Text
other_frames =
    wire.array (wire.string (codes "EOSE") ∷ wire.string (codes "s") ∷ [])
    ∷ wire.array
        (wire.string (codes "CLOSED") ∷ wire.string (codes "s") ∷ wire.string (codes "done") ∷ [])
    ∷ []

abbrev half : Channel
half = record {
  senders = update (update senders 0 (sending other_frames)) 1 (sending []);
  queue = (1, codes "ok") ∷ [];
  wire = (0, event_frame) ∷ [];
  writer = Writer.running;
}

half-Reach : Reach senders half
unfolding program parse_filters subscribe_loop sent_by subscribe_params subscribe_arguments
    subscribe_tool
half-Reach =
    later
      (later (later start (send 0 event_frame other_frames refl refl (omega arith)))
        (send 1 (codes "ok") [] refl refl (omega arith)))
      (Step.write (0, event_frame) ((1, codes "ok") ∷ []) refl refl)

wire-expected_example :
    ((rest : List Text) × (map wire.parse_array (from 0 half.wire) ++ map wire.parse_array rest
        ≡ OnWire.conversation wire wire_accessors wire_maps wire_texts plain carry carry-IsStream
            (codes "u1")
            (codes "s")
            quiet
            (codes "done")))
    × (half.writer ≡ Writer.finished
        → map wire.parse_array (from 0 half.wire)
          ≡ OnWire.conversation wire wire_accessors wire_maps wire_texts plain carry carry-IsStream
              (codes "u1")
              (codes "s")
              quiet
              (codes "done"))
unfolding parse_filters
wire-expected_example =
    OnWire.wire-expected wire wire_accessors wire_maps wire_texts plain carry carry-IsStream
      (codes "u1") (codes "token") (codes "s") filters (codes "f") [] quiet (turn lagged ∷ [])
      closing (codes "done") senders 0 refl quiet_goes_on (relay, refl) refl half-Reach
