-- ===== src/Shim/Streaming/Delivery.antt =====
-- A subscription from a vanilla client through the shim to the upstream and back: what the client
-- gets for its REQ.
use outlay.Base.{
  map-append, Bool, true, false, some, List, [], ◌∷◌, ◌++◌, ◌≡◌, ap, ◌∙◌, map, All, append-nil,
}
use mathlib.Core.Path.{ap₂}
use outlay.Base.Res.{ok}
use outlay.Base.Text.{Text}
use outlay.Handler.{subscribe_tool, subscribe_filters, parse_filters}
use outlay.Json.{Json}
use outlay.Json.Laws.{HasAccessors, HasMaps, HasTexts}
use outlay.Nostr.{Nostr, closed}
use outlay.Proxy.Chunks.{parse_array-chunk}
use outlay.Proxy.Delivery.{expected, values_of, map-parse_array-pump}
use outlay.Proxy.Subscribe.{Turn, Call, writes, pump, run_subscribe}
use outlay.Shim.Conn.Loop.{Round, Output, forward, opened, subscribe_loop, subscribe_loop_lem}
use outlay.Shim.Streaming.{IsStream, subscribe_arguments, serve_subscribe}
use outlay.Shim.Streaming.Calls.{
  subscribe_params-arguments, carry-writes, carry_head, rounds_going, Goes, Closes, closed_text,
  calls_of_going, calls_of_closed,
}

module _ (J : Json) (A : HasAccessors J) (M : HasMaps J) (L : HasTexts J) (N : Nostr J)
    (carry : List (Call N.Filter) → List Round) (S : IsStream carry) where
  open J use {Value, parse_array}
  open N use {Event, Filter}

  -- What the client's subscription task does, against an outlay whose upstream says `turns`.
  abbrev pub heard : Text → Text → Text → List Value → List (Turn Event) → List (Output) × Bool
  heard id token sub_id filters turns = subscribe_loop J sub_id (opened token) (
      carry (
        serve_subscribe J N
          (record { upstream_id = id; subscribed = ok tt; turns = turns; active = true })
          (subscribe_arguments J sub_id filters)))

  tool_calls :
      (id sub_id : Text) (filters : List Value) (fs : List Filter) (turns : List (Turn Event))
      → parse_filters J N filters ≡ ok fs
      → (subscribe_tool J N true sub_id filters
          (record { upstream_id = id; subscribed = ok tt; turns = turns; active = true })).0
        ≡ (run_subscribe J N sub_id fs id (ok tt) turns true).calls
  unfolding subscribe_tool subscribe_filters
  tool_calls id sub_id filters fs turns h = rw h

  heard_lem :
      (id token sub_id : Text) (filters : List Value) (fs : List Filter) (turns : List (Turn Event))
      → parse_filters J N filters ≡ ok fs
      → heard id token sub_id filters turns
        ≡ subscribe_loop J sub_id
            (opened token)
            (carry (run_subscribe J N sub_id fs id (ok tt) turns true).calls)
  heard_lem id token sub_id filters fs turns h =
      rw (subscribe_params-arguments J A M sub_id filters, tool_calls id sub_id filters fs turns h)

  heard_going :
      (id token sub_id : Text) (filters : List Value) (f : Filter) (fs : List Filter)
      (ts : List (Turn Event))
      → parse_filters J N filters ≡ ok (f ∷ fs)
      → All (Goes J N id sub_id) ts
      → heard id token sub_id filters ts ≡ (map forward (pump J N id sub_id ts).0, false)
  unfolding subscribe_loop
  heard_going id token sub_id filters f fs ts h g =
      let cs = (pump J N id sub_id ts).0 in
      rw
        (
          heard_lem id token sub_id filters (f ∷ fs) ts h,
          calls_of_going J N id sub_id fs f ts true g,
          carry_head carry S J id (f ∷ fs) (writes cs []),
          carry-writes carry S J sub_id cs [],
          S.carry-nil,
        )
        (rounds_going carry S J sub_id token cs)

  heard_closed :
      (id token sub_id : Text) (filters : List Value) (f : Filter) (fs : List Filter)
      (ts us : List (Turn Event)) (t : Turn Event) (reason : Text)
      → parse_filters J N filters ≡ ok (f ∷ fs)
      → All (Goes J N id sub_id) ts
      → Closes J N id sub_id reason t
      → heard id token sub_id filters (ts ++ t ∷ us)
        ≡ (map forward ((pump J N id sub_id ts).0 ++ closed_text J N id sub_id reason ∷ []), true)
  heard_closed id token sub_id filters f fs ts us t reason h g k =
      let cs = (pump J N id sub_id ts).0 ++ closed_text J N id sub_id reason ∷ [] in
      let last : List (Call Filter) = Call.unsubscribe id ∷ Call.close ∷ [] in
      rw (
        heard_lem id token sub_id filters (f ∷ fs) (ts ++ t ∷ us) h,
        calls_of_closed J N id sub_id fs f ts us t reason g k,
        carry_head carry S J id (f ∷ fs) (writes cs last),
        carry-writes carry S J sub_id cs last,
        S.carry-unsubscribe id (Call.close ∷ []),
        S.carry-close [],
        subscribe_loop_lem J sub_id token cs Round.ended (carry []) tt,
        append-nil (map forward cs),
      )

  -- Of a subscription that was opened at the upstream and that its client does not cancel: the
  -- frames that the client gets are the NIP-01 arrays of the messages for it that outlay's loop is
  -- notified of, under the client's own subscription id, in order, each of these once and no other,
  -- and the task is still at work; once a relay closes the subscription, its CLOSED is the last
  -- frame, whatever follows upstream, and the task has returned. A message that the receiver of the
  -- notifications has lost, so that the loop is told only that it lags, is none of these.
  pub subscribe_loop-expected :
      (id token sub_id : Text) (filters : List Value) (f : Filter) (fs : List Filter)
      (ts : List (Turn Event))
      → parse_filters J N filters ≡ ok (f ∷ fs)
      → All (Goes J N id sub_id) ts
      → ((frames : List Text) × (heard id token sub_id filters ts ≡ (map forward frames, false))
          × (map parse_array frames ≡ map some (expected J N id sub_id ts)))
        × ((reason : Text) (t : Turn Event) (us : List (Turn Event))
            → Closes J N id sub_id reason t
            → (frames : List Text) × (heard id token sub_id filters (ts ++ t ∷ us)
                ≡ (map forward frames, true))
              × (map parse_array frames
                  ≡ map some (expected J N id sub_id ts)
                    ++ some (values_of J N id sub_id (closed id reason)) ∷ []))
  subscribe_loop-expected id token sub_id filters f fs ts h g =
      let cs = (pump J N id sub_id ts).0 in
      let parsed = map-parse_array-pump J N id sub_id L ts g in
      (
        (cs, heard_going id token sub_id filters f fs ts h g, parsed),
        λ reason t us k.
            let c = closed_text J N id sub_id reason in
            (
              cs ++ c ∷ [],
              heard_closed id token sub_id filters f fs ts us t reason h g k,
              map-append parse_array cs (c ∷ [])
                  ∙ ap₂ ◌++◌ parsed (
                      ap (λ x. x ∷ [])
                        (parse_array-chunk J L (values_of J N id sub_id (closed id reason)))),
            ),
      )
