-- ===== src/Proxy/Subscribe.antt =====
-- `StreamWriter` and `Proxy::subscribe` of crates/outlay/src/proxy.rs. The function is run against
-- the answers of its environment: each round of `select!` is a `Turn`, with the future that was
-- ready and what the CEP-41 writer answers in that round. The result is the calls that the code
-- made, in order, and how the call ended; when the turns run out the loop is still waiting.
use outlay.Base.{Bool, true, false, not, ◌&&◌, Option, some, none, List, [], ◌∷◌, if◌then◌else◌}
use outlay.Base.Res.{Result, ok, err}
use outlay.Base.Text.{Text}
use outlay.Json.{Json}
use outlay.Nostr.{Nostr, Notification}
use outlay.Proxy.{ProxyError, empty_filters, subscribe, Forward, continue, stop, map_notification}

-- `rx.recv()` or the liveness poll.
pub data Wake (E : Type 0) : Type 0 where
  notified : Notification E → Wake E
  lagged closed poll : Wake E

pub record Turn (E : Type 0) : Type 0 where
  pub wake : Wake E
  -- `OpenStreamWriter::write(..).is_ok()` and `is_active()`
  pub write_ok : Bool
  pub active : Bool

-- The calls that reach the upstream pool and the writer.
pub data Call (F : Type 0) : Type 0 where
  subscribe_with_id : Text → List F → Call F
  start : Call F
  write : Text → Call F
  unsubscribe : Text → Call F
  close : Call F

-- `none`: the call has not returned.
pub record Run (F : Type 0) : Type 0 where
  pub calls : List (Call F)
  pub returned : Option (Result ProxyError (Unit {0}))

-- `StreamWriter::write`: whether the sink is still alive after the write.
unfoldable pub alive : {E : Type 0} → Turn E → Bool
alive t = t.write_ok && t.active

abbrev pub cons_some : Option Text → List Text → List Text
cons_some none cs = cs
cons_some (some c) cs = c ∷ cs

abbrev pub writes : {F : Type 0} → List Text → List (Call F) → List (Call F)
writes [] rest = rest
writes (c ∷ cs) rest = write c ∷ writes cs rest

module _ (J : Json) (N : Nostr J) (upstream_id client_sub : Text) where
  open N use {Event}

  -- One round of the loop: the chunk that it writes, and whether it breaks.
  unfoldable pub forward : Turn Event → Option Forward → Option Text × Bool
  unfolding alive
  forward t none = (none, false)
  forward t (some (continue c)) = (some c, not (alive t))
  forward t (some (stop c)) = (some c, true)

  unfoldable pub round : Turn Event → Wake Event → Option Text × Bool
  unfolding forward
  round t (notified n) = forward t (map_notification J N n upstream_id client_sub)
  round t lagged = (none, false)
  round t closed = (none, true)
  round t poll = (none, not t.active)

  -- The loop: the chunks written, and whether it was left.
  unfoldable pub pump : List (Turn Event) → List Text × Bool
  pump [] = ([], false)
  pump (t ∷ ts) =
      let rest = pump ts in
      let r = round t t.wake in
      if r.1 then (cons_some r.0 [], true) else (cons_some r.0 rest.0, rest.1)

module _ (J : Json) (N : Nostr J) where
  open N use {Event, Filter}

  -- What follows the loop; `active` is `sink.is_active()` after the unsubscription.
  unfoldable pub unwind : Text → Bool → List (Call Filter)
  unwind upstream_id active = unsubscribe upstream_id ∷ (if active then close ∷ [] else [])

  unfoldable pub finish : Text → List Filter → Bool → List Text × Bool → Run Filter
  unfolding unwind
  finish upstream_id filters active (cs, true) = record {
    calls = subscribe_with_id upstream_id filters ∷ start ∷ writes cs (unwind upstream_id active);
    returned = some (ok tt);
  }
  finish upstream_id filters active (cs, false) = record {
    calls = subscribe_with_id upstream_id filters ∷ start ∷ writes cs [];
    returned = none;
  }

  -- `upstream_id` is `SubscriptionId::generate()` and `subscribed` the pool's answer.
  unfoldable pub run_subscribe :
      Text → List Filter → Text → Result Text (Unit {0}) → List (Turn Event) → Bool → Run Filter
  unfolding finish
  run_subscribe client_sub [] upstream_id subscribed turns active = record {
    calls = [];
    returned = some (err empty_filters);
  }
  run_subscribe client_sub (f ∷ fs) upstream_id (err e) turns active = record {
    calls = subscribe_with_id upstream_id (f ∷ fs) ∷ [];
    returned = some (err (subscribe e));
  }
  run_subscribe client_sub (f ∷ fs) upstream_id (ok _) turns active =
      finish upstream_id (f ∷ fs) active (pump J N upstream_id client_sub turns)
