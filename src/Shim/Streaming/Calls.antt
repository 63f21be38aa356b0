-- ===== src/Shim/Streaming/Calls.antt =====
-- A subscription from a vanilla client through the shim to the upstream: the arguments of the call
-- (crates/outlay-shim/src/conn.rs, crates/outlay/src/handler.rs), and the calls of outlay
-- (crates/outlay/src/proxy.rs) with the rounds that they come to.
use outlay.Base.{
  Bool, true, false, Option, some, none, List, [], ◌∷◌, ◌++◌, ◌≡◌, refl, ap, ◌∙◌, inl, inr, map,
  All, Bool-cases,
}
use outlay.Base.Res.{ok}
use outlay.Base.Text.{Text, codes, ◌==◌, ==_refl}
use outlay.Json.{Json}
use outlay.Json.Laws.{HasAccessors, HasMaps, find-insert_self, find-insert_apart}
use outlay.Nostr.{Nostr, closed, message}
use outlay.Proxy
use outlay.Proxy.{map_notification}
use outlay.Proxy.Delivery.{values_of}
use outlay.Proxy.Stream.{Ending, round_iff}
use outlay.Proxy.Subscribe
use outlay.Proxy.Subscribe.{
  Turn, cons_some, Wake, notified, Call, writes, round, pump, finish, unwind, run_subscribe,
}
use outlay.Shim.Args.{args}
use outlay.Shim.Conn.Loop.{Round, forward, rounds, chunks}
use outlay.Shim.Streaming.{IsStream, subscribe_arguments, subscribe_params}

module _ (J : Json) (A : HasAccessors J) (M : HasMaps J) where
  open J use {Value}

  found_filters :
      (sub_id : Text) (filters : List Value)
      → J.find (codes "filters") (subscribe_arguments J sub_id filters) ≡ some (J.array filters)
  unfolding subscribe_arguments args
  found_filters sub_id filters = rw (A.as_object-object) (find-insert_self J M _ _ _)

  found_id :
      (sub_id : Text) (filters : List Value)
      → J.find (codes "subscription_id") (subscribe_arguments J sub_id filters)
        ≡ some (J.string sub_id)
  unfolding subscribe_arguments args ◌==◌
  found_id sub_id filters =
      rw (A.as_object-object) (find-insert_apart J M _ _ _ _ refl ∙ find-insert_self J M _ _ _)

  -- outlay reads from the call what the client has asked for.
  pub subscribe_params-arguments :
      (sub_id : Text) (filters : List Value)
      → subscribe_params J (subscribe_arguments J sub_id filters)
        ≡ some (record { subscription_id = sub_id; filters = filters })
  unfolding subscribe_params
  subscribe_params-arguments sub_id filters = rw (
    found_id sub_id filters,
    found_filters sub_id filters,
    A.as_str-string sub_id,
    A.as_array-array filters,
  )

-- What a stream brings for the calls of a run.
module _ {F : Type 0} (carry : List (Call F) → List Round) (S : IsStream carry) (J : Json) where
  pub carry-writes :
      (sub_id : Text) (cs : List Text) (calls : List (Call F))
      → carry (writes cs calls) ≡ chunks J sub_id cs ++ carry calls
  carry-writes sub_id [] calls = refl
  carry-writes sub_id (c ∷ cs) calls =
      S.carry-write c (writes cs calls)
      ∙ ap (◌∷◌ (Round.chunk c true)) (carry-writes sub_id cs calls)

  pub carry_head :
      (id : Text) (fs : List F) (calls : List (Call F))
      → carry (Call.subscribe_with_id id fs ∷ Call.start ∷ calls) ≡ carry calls
  carry_head id fs calls = S.carry-subscribe id fs (Call.start ∷ calls) ∙ S.carry-start calls

  -- The rounds of a stream that goes on, and of one that was closed.
  pub rounds_going :
      (sub_id token : Text) (cs : List Text)
      → rounds J sub_id token (chunks J sub_id cs ++ []) ≡ (map forward cs, false)
  unfolding rounds
  rounds_going sub_id token [] = refl
  rounds_going sub_id token (c ∷ cs) = rw (rounds_going sub_id token cs)

module _ (J : Json) (N : Nostr J) (id client_sub : Text) where
  open J use {Value, parse_array}
  open N use {Event, Filter}

  abbrev pub Goes : Turn Event → Type 0
  Goes t = ¬ Ending J N id client_sub t t.wake

  cons_some-append :
      (o : Option Text) (cs ds : List Text) → cons_some o (cs ++ ds) ≡ cons_some o cs ++ ds
  cons_some-append none cs ds = refl
  cons_some-append (some c) cs ds = refl

  -- A round that does not end the stream is followed by the others.
  pump_of_going :
      (t : Turn Event) (ts : List (Turn Event))
      → Goes t
      → pump J N id client_sub (t ∷ ts) ≡ (
        cons_some (round J N id client_sub t t.wake).0 (pump J N id client_sub ts).0,
        (pump J N id client_sub ts).1,
      )
  unfolding pump
  pump_of_going t ts h = elim (Bool-cases (round J N id client_sub t t.wake).1) [
    | inl e ↦ absurd (h ((round_iff J N id client_sub t t.wake).0 e))
    | inr e ↦ rw e
  ]

  pump-append :
      (ts us : List (Turn Event))
      → All Goes ts
      → pump J N id client_sub (ts ++ us) ≡ (
        (pump J N id client_sub ts).0 ++ (pump J N id client_sub us).0,
        (pump J N id client_sub us).1,
      )
  unfolding pump
  pump-append [] us h = refl
  pump-append (t ∷ ts) us (h, hs) =
      rw (pump_of_going t (ts ++ us) h, pump_of_going t ts h, pump-append ts us hs)
        (rw
          (cons_some-append (round J N id client_sub t t.wake).0 (pump J N id client_sub ts).0
            (pump J N id client_sub us).0)
          refl)

  -- The last message of a subscription that its relay closes.
  abbrev pub Closes : Text → Turn Event → Type 0
  Closes reason t = (url : Text) × (t.wake ≡ notified (message url (closed id reason)))

  abbrev pub closed_text : Text → Text
  closed_text reason = Proxy.chunk J (J.array (values_of J N id client_sub (closed id reason)))

  pump_of_closed :
      (reason : Text) (t : Turn Event) (us : List (Turn Event))
      → Closes reason t
      → pump J N id client_sub (t ∷ us) ≡ (closed_text reason ∷ [], true)
  unfolding pump round map_notification Subscribe.forward
  pump_of_closed reason t us (url, h) = rw (h, ==_refl id)

  pump_waits : (ts : List (Turn Event)) → All Goes ts → (pump J N id client_sub ts).1 ≡ false
  unfolding pump
  pump_waits [] h = refl
  pump_waits (t ∷ ts) (h, hs) = rw (pump_of_going t ts h) (pump_waits ts hs)

  finish_of_waiting :
      (fs : List Filter) (active : Bool) (w : List Text × Bool)
      → w.1 ≡ false
      → (finish J N id fs active w).calls
        ≡ Call.subscribe_with_id id fs ∷ Call.start ∷ writes w.0 []
  unfolding finish
  finish_of_waiting fs active (cs, false) h = refl
  finish_of_waiting fs active (cs, true) h = cc

  -- The calls of a subscription that goes on, and of one that its relay closed.
  pub calls_of_going :
      (fs : List Filter) (f : Filter) (ts : List (Turn Event)) (active : Bool)
      → All Goes ts
      → (run_subscribe J N client_sub (f ∷ fs) id (ok tt) ts active).calls
        ≡ Call.subscribe_with_id id (f ∷ fs) ∷ Call.start ∷ writes (pump J N id client_sub ts).0 []
  unfolding run_subscribe
  calls_of_going fs f ts active h =
      finish_of_waiting (f ∷ fs) active (pump J N id client_sub ts) (pump_waits ts h)

  pub calls_of_closed :
      (fs : List Filter) (f : Filter) (ts us : List (Turn Event)) (t : Turn Event) (reason : Text)
      → All Goes ts
      → Closes reason t
      → (run_subscribe J N client_sub (f ∷ fs) id (ok tt) (ts ++ t ∷ us) true).calls
        ≡ Call.subscribe_with_id id (f ∷ fs)
          ∷ Call.start
          ∷ writes
              ((pump J N id client_sub ts).0 ++ closed_text reason ∷ [])
              (Call.unsubscribe id ∷ Call.close ∷ [])
  unfolding run_subscribe finish unwind
  calls_of_closed fs f ts us t reason h k =
      rw (pump-append ts (t ∷ us) h, pump_of_closed reason t us k)
