-- ===== src/Shim/Live.antt =====
-- A whole connection of crates/outlay-shim/src/conn.rs as it runs: the frame loop of `handle_ws`, the
-- subscription tasks and publications that it spawns, the writer task and the channel between them,
-- interleaved in any order. The effects of a frame are those of Conn, the moves of a subscription
-- task those of Conn/Cancel, and they are carried out one at a time. A write to the socket, its close
-- and the cancellation of a call are each one step: when they are awaited, they complete.
pub mod Workers
pub mod Names
pub mod Invariant
pub mod Carried
pub mod Frames
pub mod Said
pub mod Steps
pub mod Tracked
pub mod Work
pub mod Closes
pub mod Outputs
pub mod Delivered
pub mod Heard
pub mod Heeding
pub mod Verbatim
pub mod Shapes
pub mod Typed
use outlay.Base.{
  ℕ, ◌<◌, Bool, true, false, Option, some, none, List, [], ◌∷◌, ◌++◌, ◌≡◌, if◌then◌else◌, eqb,
  length, map, All, ◌⊎◌,
}
use outlay.Base.Res.{Result}
use outlay.Base.Text.{Text}
use outlay.Json.{Json}
use outlay.Shim.Conn.{
  Subs, Conn, Inbound, text, closed, failed, ignored, Effect, cancel, spawn_subscribe,
  spawn_publish, send, on_msg, cancel_all,
}
use outlay.Shim.Conn.Cancel
use outlay.Shim.Conn.Cancel.{Task, notify, Asks, nothing, gone, put, Hears, Moves}
use outlay.Shim.Conn.Writer.{Writer, running, closing, stopped, finished, is_gone, outbound_buf}
use outlay.Shim.Publish.{event_id_of, answer_frame}
use outlay.Shim.Translate.{parse_client_frame}

-- The frames in the channel or on the socket, each with the number of the task that sent it, if it is
-- one of a subscription.
abbrev pub Frames : Type 0
Frames = List (Option ℕ × Text)

-- `tx.send(..).await`: the frame has room in the channel, or the receiver is gone.
abbrev pub Passes : Option ℕ → Asks → Writer → Frames → Frames → Type 0
Passes i nothing writer queue after = after ≡ queue
Passes i (put frame) writer queue after =
    (is_gone writer ≡ false) × (length queue < outbound_buf) × (after ≡ queue ++ (i, frame) ∷ [])
Passes i gone writer queue after = (is_gone writer ≡ true) × (after ≡ queue)

-- A frame that is sent on goes into the channel, or is refused as the receiver is gone.
abbrev pub Offers : Text → Writer → Frames → Frames → Type 0
Offers frame writer queue after =
    Passes none (put frame) writer queue after ⊎ Passes none gone writer queue after

module _ (J : Json) where
  open J use {Value}

  pub data Worker : Type 0 where
    -- the number of the task, its subscription id and its state
    subscriber : ℕ → Text → Task → Worker
    -- `publish_once`: its call has not been answered; its frame waits for the channel; it is over
    calling : Value → Worker
    answering : Text → Worker
    published : Worker

  pub data Loop : Type 0 where
    -- the effects to be carried out, and whether the loop over the frames has been left
    doing : List (Effect J) → Bool → Loop
    -- `tx` is dropped, and the writer awaited
    joining : Loop
    over : Loop

  pub record Live : Type 0 where
    pub conn : Conn
    pub loop : Loop
    pub workers : List Worker
    pub queue : Frames
    pub wire : Frames
    pub writer : Writer

  -- A frame, or its end, from `stream.next()`.
  unfoldable pub receive : Option Inbound → Conn → Conn × Loop
  unfolding on_msg cancel_all
  receive (some (text t)) c = let r = on_msg J c (parse_client_frame J t) in (r.0, doing r.1 false)
  receive (some ignored) c = (c, doing [] false)
  receive (some closed) c = (c, doing (cancel_all J c.subs) true)
  receive (some failed) c = (c, doing (cancel_all J c.subs) true)
  receive none c = (c, doing (cancel_all J c.subs) true)

  unfoldable pub notify_if : ℕ → Worker → Worker
  notify_if n (subscriber i sub_id s) =
      if eqb i n then subscriber i sub_id (notify s) else subscriber i sub_id s
  notify_if n w = w

  -- What an effect does to the tasks, and what it asks of the channel.
  unfoldable pub carried : Effect J → List Worker → List Worker
  unfolding notify_if
  carried (cancel n) ws = map (notify_if n) ws
  carried (spawn_subscribe n sub_id filters) ws =
      ws ++ subscriber n sub_id (Cancel.init J sub_id) ∷ []
  carried (spawn_publish event) ws = ws ++ calling event ∷ []
  carried (send t) ws = ws

  -- The frame loop goes on whether or not its own frame could be sent.
  abbrev pub Sent : Effect J → Writer → Frames → Frames → Type 0
  Sent (send t) writer queue after = Offers t writer queue after
  Sent e writer queue after = after ≡ queue

  -- A worker that holds no sender any more.
  abbrev pub IsDead : Worker → Type 0
  IsDead (subscriber n sub_id s) = s.phase ≡ Cancel.returned
  IsDead (calling event) = ⊥
  IsDead (answering frame) = ⊥
  IsDead published = Unit

  -- What comes from outside: frames of the client, and the answers of the server.
  pub data World (c : Live) : Live → Type 0 where
    frame :
        (f : Option Inbound)
        → c.loop ≡ doing [] false
        → World c (record c { conn = (receive f c.conn).0; loop = (receive f c.conn).1 })
    hears :
        (before after : List Worker) (n : ℕ) (sub_id : Text) (s t : Task)
        → c.workers ≡ before ++ subscriber n sub_id s ∷ after
        → Hears J sub_id s t
        → World c (record c { workers = before ++ subscriber n sub_id t ∷ after })
    answers :
        (before after : List Worker) (event : Value) (r : Result Text (Option Value))
        → c.workers ≡ before ++ calling event ∷ after
        → World c (record c {
          workers = before ++ answering (answer_frame J (event_id_of J event) r) ∷ after;
        })

  -- What the connection does by itself.
  pub data Acts (c : Live) : Live → Type 0 where
    does :
        (e : Effect J) (es : List (Effect J)) (left : Bool) (queue : Frames)
        → c.loop ≡ doing (e ∷ es) left
        → Sent e c.writer c.queue queue
        → Acts c (record c { loop = doing es left; workers = carried e c.workers; queue = queue })
    -- `drop(tx)`, then `writer.await`
    leaves : c.loop ≡ doing [] true → Acts c (record c { loop = joining })
    joins : c.loop ≡ joining → is_gone c.writer ≡ true → Acts c (record c { loop = over })
    moves :
        (before after : List Worker) (n : ℕ) (sub_id : Text) (s t : Task) (a : Asks)
        (queue : Frames)
        → c.workers ≡ before ++ subscriber n sub_id s ∷ after
        → Moves J sub_id s a t
        → Passes (some n) a c.writer c.queue queue
        → Acts c (record c { workers = before ++ subscriber n sub_id t ∷ after; queue = queue })
    publishes :
        (before after : List Worker) (frame : Text) (queue : Frames)
        → c.workers ≡ before ++ answering frame ∷ after
        → Offers frame c.writer c.queue queue
        → Acts c (record c { workers = before ++ published ∷ after; queue = queue })
    -- the writer, as in Conn/Writer
    writes :
        (m : Option ℕ × Text) (queue : Frames)
        → c.writer ≡ running
        → c.queue ≡ m ∷ queue
        → Acts c (record c { queue = queue; wire = c.wire ++ m ∷ [] })
    fails :
        (m : Option ℕ × Text) (queue : Frames)
        → c.writer ≡ running
        → c.queue ≡ m ∷ queue
        → Acts c (record c { queue = queue; writer = closing })
    closes : c.writer ≡ closing → Acts c (record c { queue = []; writer = stopped })
    finishes :
        c.writer ≡ running
        → c.queue ≡ []
        → c.loop ≡ joining
        → All IsDead c.workers
        → Acts c (record c { writer = finished })

  abbrev pub init : Live
  init = record {
    conn = record { subs = []; next = 0 };
    loop = doing [] false;
    workers = [];
    queue = [];
    wire = [];
    writer = running;
  }

  pub data Reach : Live → Type 0 where
    start : Reach init
    world : {b c : Live} → Reach b → World b c → Reach c
    acts : {b c : Live} → Reach b → Acts b c → Reach c
