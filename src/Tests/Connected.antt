-- ===== src/Tests/Connected.antt =====
-- A whole connection: a run of it, and the theorems at it.
use outlay.Base.{◌++◌, List, arith, true, false, some, none, [], ◌∷◌, ◌≡◌, ◌⊎◌, refl, All}
use outlay.Base.Text.{Text, codes, ◌==◌}
use outlay.Shim.Conn.{Effect, text, remove, insert}
use outlay.Shim.Conn.Cancel
use outlay.Shim.Conn.Loop.{forward}
use outlay.Shim.Conn.Writer.{Writer}
use outlay.Shim.Live
use outlay.Shim.Live.{Live, Worker, Loop, receive, carried, Reach}
use outlay.Shim.Live.Closes
use outlay.Shim.Live.Delivered
use outlay.Shim.Live.Heard
use outlay.Shim.Live.Said
use outlay.Shim.Live.Shapes
use outlay.Shim.Live.Tracked
use outlay.Shim.Live.Typed
use outlay.Shim.Live.Verbatim
use outlay.Shim.Translate.{parse_client_frame}
use outlay.Tests.Bridge.{request_frame}
use outlay.Tests.Wire.{wire, wire_texts}

-- A client has asked for the subscription `s`, and a chunk of it waits to be sent.
abbrev subscribed : Live wire
subscribed = record {
  conn = record { subs = (codes "s", 0) ∷ []; next = 1 };
  loop = Live.doing [] false;
  workers =
      Live.subscriber 0 (codes "s") (record {
        phase = Cancel.sending (codes "token") (codes "chunk");
        permit = false;
        fired = false;
        outputs = [];
      })
      ∷ [];
  queue = [];
  wire = [];
  writer = Writer.running;
}

-- The client goes: the signal of its task is under way.
abbrev leaving : Live wire
leaving = record subscribed { loop = Live.doing (Effect.cancel 0 ∷ []) true }

subscribed-Reach : Reach wire subscribed
unfolding receive parse_client_frame carried ◌==◌ remove insert
subscribed-Reach =
    Live.world
      (Live.world
        (Live.acts (Live.world Live.start (Live.frame (some (text request_frame)) refl))
          (Live.does _ [] false [] refl refl))
        (Live.hears [] [] 0 (codes "s") _ _ refl (Cancel.opened (codes "token") refl)))
      (Live.hears [] [] 0 (codes "s") _ _ refl (Cancel.chunk (codes "token") (codes "chunk") refl))

leaving-Reach : Reach wire leaving
unfolding receive
leaving-Reach = Live.world subscribed-Reach (Live.frame none refl)

Reach-Agrees_example :
    (subscribed.loop ≡ Live.doing [] false
      → Tracked.Agrees wire subscribed.conn.subs subscribed.workers)
    × ((subscribed.loop ≡ Live.joining) ⊎ (subscribed.loop ≡ Live.over)
        → All (Tracked.IsSignalled wire) subscribed.workers)
Reach-Agrees_example = Tracked.Reach-Agrees wire subscribed-Reach

Reach-Halts_example : Closes.Halts wire leaving
Reach-Halts_example = Closes.Reach-Halts wire leaving-Reach tt (tt, tt)

-- The chunk has been sent, and written to the socket.
abbrev written : Live wire
written = record subscribed {
  workers =
      Live.subscriber 0 (codes "s") (record {
        phase = Cancel.streaming (codes "token");
        permit = false;
        fired = false;
        outputs = forward (codes "chunk") ∷ [];
      })
      ∷ [];
  wire = (some 0, codes "chunk") ∷ [];
}

written-Reach : Reach wire written
written-Reach =
    Live.acts
      (Live.acts subscribed-Reach (
        Live.moves [] [] 0 (codes "s") _ _ _ _ refl
          (Cancel.send (codes "token") (codes "chunk") refl) (refl, omega arith, refl)))
      (Live.writes (some 0, codes "chunk") [] refl refl)

Reach-IsServed_example : Delivered.IsServed wire written 0 (codes "s") (record {
  phase = Cancel.streaming (codes "token");
  permit = false;
  fired = false;
  outputs = forward (codes "chunk") ∷ [];
})
Reach-IsServed_example = Delivered.Reach-IsServed wire [] [] 0 (codes "s") _ written-Reach refl

Reach-IsTyped_example : Shapes.IsTyped wire written
Reach-IsTyped_example = Typed.Reach-IsTyped wire wire_texts written-Reach

Reach-verbatim_example :
    ((rest tail : List Text) × (Said.from 0 written.wire ++ rest
        ≡ Heard.heard wire 0 written-Reach ++ tail)
      × Verbatim.IsTail wire (codes "s") tail)
    × (Writer.running ≡ Writer.finished
        → (tail : List Text) × (Said.from 0 written.wire ≡ Heard.heard wire 0 written-Reach ++ tail)
          × Verbatim.IsTail wire (codes "s") tail)
Reach-verbatim_example = Verbatim.Reach-verbatim wire [] [] 0 (codes "s") _ written-Reach refl

-- What was brought in that run.
written-heard : Heard.heard wire 0 written-Reach ≡ codes "chunk" ∷ []
unfolding written-Reach subscribed-Reach
written-heard = refl
