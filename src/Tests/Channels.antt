-- ===== src/Tests/Channels.antt =====
-- The channel and the writer of one connection, and a subscription task with its signal: runs, and
-- the theorem at the second.
use outlay.Base.{◌≡◌, true, ◌≢◌, ℕ, [], ◌∷◌, refl, arith, update}
use outlay.Base.Text.{codes}
use outlay.Shim.Conn.Cancel
use outlay.Shim.Conn.Cancel.Signal
use outlay.Tests.Wire.{wire}
use outlay.Shim.Conn.Writer.{
  Writer, Sender, sending, dropped, Channel, send, write, Reach, start, later,
}

-- A subscription with two frames and a publication with one.
abbrev two_senders : ℕ → Sender
two_senders =
    update (update (λ i. dropped) 0 (sending (codes "a" ∷ codes "b" ∷ []))) 1
      (sending (codes "ok" ∷ []))

abbrev one_written : Channel
one_written = record {
  senders = update (update two_senders 0 (sending (codes "b" ∷ []))) 1 (sending []);
  queue = (1, codes "ok") ∷ [];
  wire = (0, codes "a") ∷ [];
  writer = Writer.running;
}

one_written-Reach : Reach two_senders one_written
one_written-Reach =
    later
      (later (later start (send 0 (codes "a") (codes "b" ∷ []) refl refl (omega arith)))
        (send 1 (codes "ok") [] refl refl (omega arith)))
      (write (0, codes "a") ((1, codes "ok") ∷ []) refl refl)

-- The signal is given before the call is open.
abbrev early : Cancel.Task
early = record {
  phase = Cancel.sending (codes "token") (codes "chunk");
  permit = true;
  fired = true;
  outputs = [];
}

early-Reach : Cancel.Reach wire (codes "s") early
early-Reach =
    Cancel.hear (Cancel.hear (Cancel.fire Cancel.start) (Cancel.opened (codes "token") refl))
      (Cancel.chunk (codes "token") (codes "chunk") refl)

Reach-Returns_example :
    (true ≡ true → early.phase ≢ Cancel.returned → Signal.Returns wire (codes "s") early)
    × (early.phase ≡ Cancel.returned → Signal.Runs wire (codes "s") [] true)
Reach-Returns_example = Signal.Reach-Returns wire (codes "s") early-Reach
