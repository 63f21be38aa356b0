-- ===== src/Shim/Pipe.antt =====
-- crates/outlay-shim/src/relay.rs: the pipe between a client's WebSocket (axum) and the loopback
-- relay (tungstenite). The two message enums are the crates' documented ones; payloads are texts or
-- lists of bytes, and the contents of a close frame are not looked at.
use outlay.Base.{
  Bool, true, false, Option, some, none, List, [], ◌∷◌, ◌++◌, ◌≡◌, ◌≢◌, refl, inl, inr, arith, map,
  Option-cases, if◌then◌else◌, All,
}
use outlay.Base.Text.{Text}

pub data AxumMsg : Type 0 where
  text binary ping pong : Text → AxumMsg
  close : AxumMsg

pub data TgMsg : Type 0 where
  text binary ping pong : Text → TgMsg
  close frame : TgMsg

unfoldable pub to_tungstenite : AxumMsg → TgMsg
to_tungstenite (AxumMsg.text t) = TgMsg.text t
to_tungstenite (AxumMsg.binary b) = TgMsg.binary b
to_tungstenite (AxumMsg.ping b) = TgMsg.ping b
to_tungstenite (AxumMsg.pong b) = TgMsg.pong b
to_tungstenite AxumMsg.close = TgMsg.close

unfoldable pub from_tungstenite : TgMsg → Option AxumMsg
from_tungstenite (TgMsg.text t) = some (AxumMsg.text t)
from_tungstenite (TgMsg.binary b) = some (AxumMsg.binary b)
from_tungstenite (TgMsg.ping b) = some (AxumMsg.ping b)
from_tungstenite (TgMsg.pong b) = some (AxumMsg.pong b)
from_tungstenite TgMsg.close = none
from_tungstenite frame = none

-- One `select!`: the side that is ready, with whether the other side could be written to. A side
-- that ends or fails is `client_gone` or `relay_gone`.
pub data Ready : Type 0 where
  from_client : AxumMsg → Bool → Ready
  from_relay : TgMsg → Bool → Ready
  client_gone relay_gone : Ready

-- `tg_sink.send`, `axum_sink.send` and the two `close` calls at the end.
pub data Output : Type 0 where
  to_relay : TgMsg → Output
  to_client : AxumMsg → Output
  close_relay close_client : Output

abbrev pub closing : List Output
closing = close_relay ∷ close_client ∷ []

-- What a round sends, and whether the loop goes on.
unfoldable pub round : Ready → List Output × Bool
unfolding to_tungstenite from_tungstenite
round (from_client m sent) = (to_relay (to_tungstenite m) ∷ [], sent)
round (from_relay m sent) = elim (from_tungstenite m) [
  | some a ↦ (to_client a ∷ [], sent)
  | none ↦ ([], false)
]
round client_gone = ([], false)
round relay_gone = ([], false)

-- The loop behind a connection to the relay that came up; without an end it is still waiting.
unfoldable pub pump : List Ready → List Output
unfolding round
pump [] = []
pump (r ∷ rs) =
    let rest = pump rs in if (round r).1 then (round r).0 ++ rest else (round r).0 ++ closing

-- `connected` is whether `connect_async` succeeded.
unfoldable pub forward : Bool → List Ready → List Output
unfolding pump
forward false rs = []
forward true rs = pump rs

from-to_tungstenite :
    (m : AxumMsg) → m ≢ AxumMsg.close → from_tungstenite (to_tungstenite m) ≡ some m
unfolding to_tungstenite from_tungstenite
from-to_tungstenite (AxumMsg.text t) h = refl
from-to_tungstenite (AxumMsg.binary b) h = refl
from-to_tungstenite (AxumMsg.ping b) h = refl
from-to_tungstenite (AxumMsg.pong b) h = refl
from-to_tungstenite AxumMsg.close h = absurd (h refl)

-- What each side hears of the other.
abbrev pub heard_by_relay : List Output → List (Option AxumMsg)
heard_by_relay [] = []
heard_by_relay (to_relay m ∷ os) = from_tungstenite m ∷ heard_by_relay os
heard_by_relay (o ∷ os) = heard_by_relay os

abbrev pub heard_by_client : List Output → List AxumMsg
heard_by_client [] = []
heard_by_client (to_client m ∷ os) = m ∷ heard_by_client os
heard_by_client (o ∷ os) = heard_by_client os

-- A round in which both sides are up, and neither closes.
abbrev pub Passes : Ready → Type 0
Passes (from_client m sent) = (sent ≡ true) × (m ≢ AxumMsg.close)
Passes (from_relay m sent) = (sent ≡ true) × (from_tungstenite m ≢ none)
Passes r = ⊥

abbrev pub said_by_client : List Ready → List (Option AxumMsg)
said_by_client [] = []
said_by_client (from_client m sent ∷ rs) = some m ∷ said_by_client rs
said_by_client (r ∷ rs) = said_by_client rs

abbrev pub said_by_relay : List Ready → List (Option AxumMsg)
said_by_relay [] = []
said_by_relay (from_relay m sent ∷ rs) = from_tungstenite m ∷ said_by_relay rs
said_by_relay (r ∷ rs) = said_by_relay rs

-- While both sides are up the pipe is transparent: each side hears what the other says, verbatim,
-- complete and in order, however the two directions interleave.
pub pump_transparent :
    (rs : List Ready)
    → All Passes rs
    → (heard_by_relay (pump rs) ≡ said_by_client rs)
      × (map some (heard_by_client (pump rs)) ≡ said_by_relay rs)
unfolding pump round
pump_transparent [] h = (refl, refl)
pump_transparent (from_client m sent ∷ rs) ((s, c), h) =
    ground (arith, pump_transparent rs h, from-to_tungstenite m c)
pump_transparent (from_relay m sent ∷ rs) ((s, c), h) = elim (Option-cases (from_tungstenite m)) [
  | inl e ↦ absurd (c e)
  | inr (a, e) ↦ ground (arith, pump_transparent rs h)
]
pump_transparent (client_gone ∷ rs) (p, h) = absurd p
pump_transparent (relay_gone ∷ rs) (p, h) = absurd p
