-- ===== src/Shim/Conn/Writer.antt =====
-- The writer task of `handle_ws` in crates/outlay-shim/src/conn.rs and the channel in front of it.
-- The frame loop and the workers are the senders, each with the frames that it is going to send;
-- `tx.send` waits while the channel is full. The sends, the receives and the ends of all of them
-- interleave.
pub mod Order
pub mod Ends
use outlay.Base.{ℕ, ◌<◌, List, [], ◌∷◌, ◌++◌, ◌≡◌, length, update, Bool, true, false}
use outlay.Base.Text.{Text}

abbrev pub outbound_buf : ℕ
outbound_buf = 256

-- A sender has dropped its `tx`, or is going to send some frames yet.
pub data Sender : Type 0 where
  sending : List Text → Sender
  dropped : Sender

abbrev pub todo : Sender → List Text
todo (sending frames) = frames
todo dropped = []

-- A failed write ends the loop: the sink is being closed, with the receiver still there but no longer
-- read, and then both are gone. `finished` is the end by `recv` answering `None`.
pub data Writer : Type 0 where
  running closing stopped finished : Writer

-- The receiver is gone.
abbrev pub is_gone : Writer → Bool
is_gone running = false
is_gone closing = false
is_gone stopped = true
is_gone finished = true

pub record Channel : Type 0 where
  pub senders : ℕ → Sender
  -- in the channel, with the sender of each
  pub queue : List (ℕ × Text)
  -- written into the sink
  pub wire : List (ℕ × Text)
  pub writer : Writer

pub data Step (c : Channel) : Channel → Type 0 where
  -- `tx.send(..).await` is `Ok`
  send :
      (i : ℕ) (frame : Text) (frames : List Text)
      → is_gone c.writer ≡ false
      → c.senders i ≡ sending (frame ∷ frames)
      → length c.queue < outbound_buf
      → Step c (record c {
        senders = update c.senders i (sending frames);
        queue = c.queue ++ (i, frame) ∷ [];
      })
  -- it is an error, as the receiver is gone: the frame loop ignores that, a worker returns
  refused_on :
      (i : ℕ) (frame : Text) (frames : List Text)
      → is_gone c.writer ≡ true
      → c.senders i ≡ sending (frame ∷ frames)
      → Step c (record c { senders = update c.senders i (sending frames) })
  refused_return :
      (i : ℕ) (frame : Text) (frames : List Text)
      → is_gone c.writer ≡ true
      → c.senders i ≡ sending (frame ∷ frames)
      → Step c (record c { senders = update c.senders i dropped })
  drop :
      (i : ℕ)
      → c.senders i ≡ sending []
      → Step c (record c { senders = update c.senders i dropped })
  -- `rx.recv()` is a frame, and `sink.send` takes it or fails
  write :
      (m : ℕ × Text) (queue : List (ℕ × Text))
      → c.writer ≡ running
      → c.queue ≡ m ∷ queue
      → Step c (record c { queue = queue; wire = c.wire ++ m ∷ [] })
  fail :
      (m : ℕ × Text) (queue : List (ℕ × Text))
      → c.writer ≡ running
      → c.queue ≡ m ∷ queue
      → Step c (record c { queue = queue; writer = closing })
  close : c.writer ≡ closing → Step c (record c { queue = []; writer = stopped })
  -- `rx.recv()` is `None`: every `tx` is gone and the channel is empty
  finish :
      c.writer ≡ running
      → c.queue ≡ []
      → ((i : ℕ) → c.senders i ≡ dropped)
      → Step c (record c { writer = finished })

abbrev pub init : (ℕ → Sender) → Channel
init senders = record { senders = senders; queue = []; wire = []; writer = running }

pub data Reach (senders : ℕ → Sender) : Channel → Type 0 where
  start : Reach senders (init senders)
  later : {b c : Channel} → Reach senders b → Step b c → Reach senders c
