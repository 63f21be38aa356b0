-- ===== src/Shim/Streaming/OnWire.antt =====
-- A subscription of a vanilla client up to its socket: the task of crates/outlay-shim/src/conn.rs as
-- one of the senders of its connection, behind the channel and the writer task.
use outlay.Base.{map-append, ℕ, Option, some, List, [], ◌∷◌, ◌++◌, ◌≡◌, ap, sym, ◌∙◌, map, All}
use outlay.Base.Res.{ok}
use outlay.Base.Text.{Text}
use outlay.Handler.{parse_filters}
use outlay.Json.{Json}
use outlay.Json.Laws.{HasAccessors, HasMaps, HasTexts}
use outlay.Nostr.{Nostr, closed}
use outlay.Proxy.Delivery.{expected, values_of}
use outlay.Proxy.Subscribe.{Turn, Call}
use outlay.Shim.Conn.Loop.{Round, sent_by, sent_by-map}
use outlay.Shim.Conn.Writer.{Sender, sending, todo, Channel, finished, Reach}
use outlay.Shim.Conn.Writer.Order.{from, Reach-IsOrdered}
use outlay.Shim.Streaming.{IsStream}
use outlay.Shim.Streaming.Calls.{Goes, Closes}
use outlay.Shim.Streaming.Delivery.{heard, subscribe_loop-expected}

module _ (J : Json) (A : HasAccessors J) (M : HasMaps J) (L : HasTexts J) (N : Nostr J)
    (carry : List (Call N.Filter) → List Round) (S : IsStream carry) where
  open J use {Value, parse_array}
  open N use {Event, Filter}

  -- What NIP-01 has for the notified messages of a subscription that its relay closes in the end.
  abbrev pub conversation : Text → Text → List (Turn Event) → Text → List (Option (List Value))
  conversation id sub_id ts reason =
      map some (expected J N id sub_id ts) ++ some (values_of J N id sub_id (closed id reason)) ∷ []

  -- Of a connection with any number of senders, one of which is the task of a subscription that was
  -- opened at the upstream, that its client does not cancel and that a relay closes in the end:
  -- whatever the other senders do, the frames of that task on the client's socket are at any time a
  -- first part of the NIP-01 arrays of those messages for the subscription that outlay's loop is
  -- notified of, the CLOSED last, and they are all of these once the writer has ended because every
  -- sender is done. A message that the receiver of the notifications has lost, so that the loop is
  -- told only that it lags, is none of them.
  pub wire-expected :
      (id token sub_id : Text) (filters : List Value) (f : Filter) (fs : List Filter)
      (ts us : List (Turn Event)) (t : Turn Event) (reason : Text) (senders : ℕ → Sender) (i : ℕ)
      {c : Channel}
      → parse_filters J N filters ≡ ok (f ∷ fs)
      → All (Goes J N id sub_id) ts
      → Closes J N id sub_id reason t
      → senders i
        ≡ sending (sent_by (heard J A M L N carry S id token sub_id filters (ts ++ t ∷ us)).0)
      → Reach senders c
      → ((rest : List Text) × (map parse_array (from i c.wire) ++ map parse_array rest
            ≡ conversation id sub_id ts reason))
        × (c.writer ≡ finished → map parse_array (from i c.wire) ≡ conversation id sub_id ts reason)
  wire-expected id token sub_id filters f fs ts us t reason senders i {c} h g k s r =
      let o = Reach-IsOrdered senders r in
      let (frames, e, p) =
        (subscribe_loop-expected J A M L N carry S id token sub_id filters f fs ts h g).1 reason t
          us k in
      let all : todo (senders i) ≡ frames =
        ap todo s ∙ ap (λ x. sent_by x.0) e ∙ sent_by-map frames in
      let (rest, q) = o.prefix i in
      (
        (
          rest,
          sym (map-append parse_array (from i c.wire) rest) ∙ ap (map parse_array) (q ∙ all) ∙ p,
        ),
        λ w. ap (map parse_array) (o.whole w i ∙ all) ∙ p,
      )
