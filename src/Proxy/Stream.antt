-- ===== src/Proxy/Stream.antt =====
-- The subscription loop of crates/outlay/src/proxy.rs: the protocol that its calls follow, when it
-- ends, and what it has written by then.
use outlay.Base.{
  Bool, true, false, Option, some, none, List, [], ◌∷◌, ◌≡◌, ◌↔◌, refl, ◌∙◌, arith, if◌then◌else◌,
  All,
}
use outlay.Base.Res.{Result, ok, err}
use outlay.Base.Text.{Text, ◌==◌, ==_iff, ==_refl}
use outlay.Json.{Json}
use outlay.Nostr.{Nostr, event, end_of_stored_events, closed, other, message, shutdown}
use outlay.Proxy.{ProxyError, empty_filters, map_notification}
use outlay.Proxy.Subscribe.{
  Wake, notified, lagged, poll, Turn, Call, subscribe_with_id, start, write, unsubscribe, close,
  alive, writes, round, pump, finish, run_subscribe,
}

-- The protocol of one upstream subscription `id` and of the writer that it feeds.
pub data Phase : Type 0 where
  fresh opened streaming unwound shut : Phase

abbrev pub advance : {F : Type 0} → Text → Phase → Call F → Option Phase
advance id fresh (subscribe_with_id u fs) = if u == id then some opened else none
advance id opened start = some streaming
advance id streaming (write c) = some streaming
advance id streaming (unsubscribe u) = if u == id then some unwound else none
advance id unwound close = some shut
advance id phase call = none

abbrev pub follows : {F : Type 0} → Text → Phase → List (Call F) → Option Phase
follows id phase [] = some phase
follows id phase (c ∷ cs) = elim (advance id phase c) [
  | none ↦ none
  | some next ↦ follows id next cs
]

-- Where a call that ended in this way has to have left the protocol; the writer is closed when it
-- is still active.
abbrev pub final : Bool → Option (Result ProxyError (Unit {0})) → Phase
final active none = streaming
final active (some (ok _)) = if active then shut else unwound
final active (some (err empty_filters)) = fresh
final active (some (err e)) = opened

follows-writes :
    {F : Type 0} (id : Text) (cs : List Text) (rest : List (Call F))
    → follows id streaming (writes cs rest) ≡ follows id streaming rest
follows-writes id [] rest = refl
follows-writes id (c ∷ cs) rest = follows-writes id cs rest

follows-open :
    {F : Type 0} (id : Text) (fs : List F) (rest : List (Call F))
    → follows id fresh (subscribe_with_id id fs ∷ rest) ≡ follows id opened rest
follows-open id fs rest = ground (arith, ==_refl id)

follows-streaming :
    {F : Type 0} (id : Text) (fs : List F) (cs : List Text) (rest : List (Call F))
    → follows id fresh (subscribe_with_id id fs ∷ start ∷ writes cs rest)
      ≡ follows id streaming rest
follows-streaming id fs cs rest =
    follows-open id fs (start ∷ writes cs rest) ∙ follows-writes id cs rest

follows-unwind :
    {F : Type 0} (id : Text) (fs : List F) (cs : List Text) (rest : List (Call F))
    → follows id fresh (subscribe_with_id id fs ∷ start ∷ writes cs (unsubscribe id ∷ rest))
      ≡ follows id unwound rest
follows-unwind id fs cs rest =
    follows-streaming id fs cs (unsubscribe id ∷ rest) ∙ ground (arith, ==_refl id)

module _ (J : Json) (N : Nostr J) where
  open N use {Event, Filter}

  follows-finish :
      (id : Text) (fs : List Filter) (active : Bool) (written : List Text × Bool)
      → let run = finish J N id fs active written in
        follows id fresh run.calls ≡ some (final active run.returned)
  unfolding finish
  follows-finish id fs true (cs, true) = follows-unwind id fs cs (close ∷ [])
  follows-finish id fs false (cs, true) = follows-unwind id fs cs []
  follows-finish id fs active (cs, false) = follows-streaming id fs cs []

  -- Whatever the environment does, the calls of a subscription follow the protocol, and stop where
  -- its outcome says: an upstream subscription that was opened is given up exactly once, after the
  -- last write, when and only when the call returns.
  pub run_subscribe-follows :
      (client_sub : Text) (fs : List Filter) (id : Text) (subscribed : Result Text (Unit {0}))
      (turns : List (Turn Event)) (active : Bool)
      → let run = run_subscribe J N client_sub fs id subscribed turns active in
        follows id fresh run.calls ≡ some (final active run.returned)
  unfolding run_subscribe
  run_subscribe-follows client_sub [] id subscribed turns active = refl
  run_subscribe-follows client_sub (f ∷ fs) id (err e) turns active = follows-open id (f ∷ fs) []
  run_subscribe-follows client_sub (f ∷ fs) id (ok _) turns active =
      follows-finish id (f ∷ fs) active (pump J N id client_sub turns)

module _ (J : Json) (N : Nostr J) (id client_sub : Text) where
  open N use {Event}

  -- The rounds after which the stream has to be over: the upstream's CLOSED for this subscription,
  -- the end of the pool, a write that the sink did not survive, a poll that finds it dead.
  abbrev pub Ending : Turn Event → Wake Event → Type 0
  Ending t (notified (message url (event sid e))) = (sid ≡ id) × (alive t ≡ false)
  Ending t (notified (message url (end_of_stored_events sid))) = (sid ≡ id) × (alive t ≡ false)
  Ending t (notified (message url (closed sid reason))) = sid ≡ id
  Ending t (notified (message url other)) = ⊥
  Ending t (notified shutdown) = Unit
  Ending t (notified other) = ⊥
  Ending t lagged = ⊥
  Ending t Wake.closed = Unit
  Ending t poll = t.active ≡ false

  pub round_iff :
      (t : Turn Event) (w : Wake Event) → ((round J N id client_sub t w).1 ≡ true) ↔ Ending t w
  unfolding round map_notification
  round_iff t (notified (message url (event sid e))) = ground (arith, ==_iff sid id)
  round_iff t (notified (message url (end_of_stored_events sid))) = ground (arith, ==_iff sid id)
  round_iff t (notified (message url (closed sid reason))) = ground (arith, ==_iff sid id)
  round_iff t (notified (message url other)) = ground arith
  round_iff t (notified shutdown) = ground arith
  round_iff t (notified other) = ground arith
  round_iff t lagged = ground arith
  round_iff t Wake.closed = ground arith
  round_iff t poll = ground arith

  pump_iff :
      (ts : List (Turn Event))
      → ((pump J N id client_sub ts).1 ≡ false) ↔ All (λ t. ¬ Ending t t.wake) ts
  unfolding pump
  pump_iff [] = (λ _. tt, λ _. refl)
  pump_iff (t ∷ ts) = ground (arith, round_iff t t.wake, pump_iff ts)

  returned_iff :
      (fs : List N.Filter) (active : Bool) (written : List Text × Bool)
      → ((finish J N id fs active written).returned ≡ none) ↔ (written.1 ≡ false)
  unfolding finish
  returned_iff fs active (cs, true) = ground arith
  returned_iff fs active (cs, false) = ground arith

  -- A subscription that the upstream accepted goes on exactly as long as no round is one after
  -- which it has to be over; a dead sink ends it at the next poll or write.
  pub run_subscribe-waits_iff :
      (f : N.Filter) (fs : List N.Filter) (turns : List (Turn Event)) (active : Bool)
      → ((run_subscribe J N client_sub (f ∷ fs) id (ok tt) turns active).returned ≡ none)
        ↔ All (λ t. ¬ Ending t t.wake) turns
  unfolding run_subscribe
  run_subscribe-waits_iff f fs turns active =
      let (to, from) = returned_iff (f ∷ fs) active (pump J N id client_sub turns) in
      let (left, right) = pump_iff turns in (λ h. left (to h), λ h. from (right h))
