-- ===== src/Tests/Bridge.antt =====
-- The connection of a client to the shim: the theorems at concrete inputs.
use outlay.Base.{
  ℕ, ◌≤◌, true, false, some, List, [], ◌∷◌, ◌≡◌, ◌↔◌, refl, sym, inl, inr, arith, map, Bool-cases,
  All,
}
use outlay.Base.Res.{ok, err}
use outlay.Base.Text.{Text, codes, ◌==◌, ==_refl, ==_iff}
use outlay.Proxy.Publish.{Output, answered, accepted, outcome}
use outlay.Shim.Cache.{Lru, IsLru, OnceCell, State, get}
use outlay.Shim.Cache.Sharing
use outlay.Shim.Conn.{Conn, Inbound, on_msg, handle_frames}
use outlay.Shim.Conn.Tasks
use outlay.Shim.Conn.View
use outlay.Shim.EndToEnd
use outlay.Shim.Frames
use outlay.Shim.Pipe
use outlay.Shim.Publish.{publish_once}
use outlay.Shim.Translate.{ClientMsg, req, parse_client_frame, ok_frame}
use outlay.Tests.Once.{once}
use outlay.Tests.Wire.{wire, wire_accessors, wire_maps}
use outlay.Tests.Streams.{plain}

abbrev pub request : ClientMsg wire
request = req (codes "s") (wire.string (codes "f") ∷ [])

abbrev pub request_frame : Text
request_frame = wire.display (
    wire.array (wire.string (codes "REQ") ∷ wire.string (codes "s") ∷ wire.string (codes "f") ∷ []))

parse_client_frame_iff_example : (parse_client_frame wire request_frame ≡ some request) ↔ (
    (arr : List Text) × (wire.parse_array request_frame ≡ some arr)
    × Frames.Denotes wire request arr)
parse_client_frame_iff_example = Frames.parse_client_frame_iff wire request_frame request

abbrev frames : List Inbound
frames =
    Inbound.text request_frame
    ∷ Inbound.text (codes "hello")
    ∷ Inbound.ignored
    ∷ Inbound.text request_frame
    ∷ Inbound.closed
    ∷ []

handle_frames_balanced_example :
    (Tasks.total wire (Tasks.cancels wire 1) (handle_frames wire frames)
      ≡ Tasks.total wire (Tasks.spawns wire 1) (handle_frames wire frames))
    × (Tasks.total wire (Tasks.spawns wire 1) (handle_frames wire frames) ≤ 1)
handle_frames_balanced_example = Tasks.handle_frames_balanced wire frames 1

abbrev open_conn : Conn
open_conn = record { subs = (codes "s", 0) ∷ []; next = 1 }

open_conn-IsValid : Tasks.IsValid wire open_conn
open_conn-IsValid = record { distinct = (tt, tt); below = (omega arith, tt) }

on_msg_refines_example :
    ((j : Text)
      → View.find j (on_msg wire open_conn (some request)).0.subs
        ≡ View.view_after wire (λ k. View.find k open_conn.subs) 1 (some request) j)
    × ((on_msg wire open_conn (some request)).1
        ≡ View.effects_of wire (λ k. View.find k open_conn.subs) 1 (some request))
on_msg_refines_example = View.on_msg_refines wire open_conn (some request) open_conn-IsValid

abbrev refusal : Output
refusal = record { success = []; failed = (codes "wss://up.test", codes "blocked") ∷ [] }

publish_once-outcome_example :
    publish_once wire
      (EndToEnd.serve_publish wire plain (λ e. codes "error") (λ e. answered refusal))
      (wire.string (codes "hello"))
    ≡ ok_frame wire
        (codes "hello")
        (accepted refusal.success)
        (outcome wire plain (codes "hello") refusal).message
publish_once-outcome_example =
    EndToEnd.publish_once-outcome wire plain wire_accessors wire_maps (λ e. codes "error")
      (λ e. answered refusal) (wire.string (codes "hello")) (codes "hello") refusal (codes "hello")
      refl refl refl

abbrev traffic : List Pipe.Ready
traffic =
    Pipe.from_client (Pipe.AxumMsg.text (codes "REQ")) true
    ∷ Pipe.from_relay (Pipe.TgMsg.text (codes "EVENT")) true
    ∷ Pipe.from_client (Pipe.AxumMsg.ping []) true
    ∷ []

traffic-Passes : All Pipe.Passes traffic
unfolding Pipe.from_tungstenite
traffic-Passes = ((refl, λ h. cc), ((refl, λ h. cc), ((refl, λ h. cc), tt)))

pump_transparent_example :
    (Pipe.heard_by_relay (Pipe.pump traffic) ≡ Pipe.said_by_client traffic)
    × (map some (Pipe.heard_by_client (Pipe.pump traffic)) ≡ Pipe.said_by_relay traffic)
pump_transparent_example = Pipe.pump_transparent traffic traffic-Passes

-- A cache that never evicts.
abbrev pub large : Lru
large = record {
  Cache = List (Text × ℕ);
  get = λ k c. (View.find k c, c);
  put = λ k n c. (k, n) ∷ c;
  peek = View.find;
}

pub large-IsLru : IsLru large
large-IsLru = record {
  get_value = λ k c. refl;
  get_keeps = λ j k c. refl;
  put_self = λ k n c. rw (==_refl k);
  put_other = λ j k n c h. elim (Bool-cases (k == j)) [
    | inl e ↦ absurd (h (sym ((==_iff k j).0 e)))
    | inr e ↦ inl (rw e)
  ];
}

abbrev text_cell : OnceCell Text
text_cell = once

abbrev empty_state : State large text_cell
empty_state = record { entries = []; cells = λ i. text_cell.new; next = 0 }

abbrev first_state : State large text_cell
first_state = (get large text_cell (codes "k") (ok (codes "t")) empty_state).state

abbrev later : List (Sharing.Call large large-IsLru text_cell)
later = (codes "j", ok (codes "other")) ∷ (codes "k", ok (codes "new")) ∷ []

get_shares_example :
    ((get large text_cell
        (codes "k")
        (err (codes "down"))
        (Sharing.run large large-IsLru text_cell later first_state)).result
      ≡ ok (codes "t"))
    × ((get large text_cell
          (codes "k")
          (err (codes "down"))
          (Sharing.run large large-IsLru text_cell later first_state)).called
        ≡ false)
unfolding get ◌==◌
get_shares_example =
    Sharing.get_shares large large-IsLru text_cell (codes "k") (codes "t") (ok (codes "t"))
      (err (codes "down")) later empty_state refl (λ h. cc, (λ h. cc, tt))
