-- ===== src/Shim/Conn/Cancel.antt =====
-- A subscription task of crates/outlay-shim/src/conn.rs and its cancel signal, as they interleave:
-- `notify_one` leaves a permit in the `Notify`, which `cancel.notified()` takes, now or later. Where
-- several branches of a `select!` are ready, any of them may be taken. A branch that waits in
-- `tx.send(..).await` hears neither the signal nor the stream.
pub mod Signal
use outlay.Base.{Bool, true, false, List, [], ◌∷◌, ◌++◌, ◌≡◌}
use outlay.Base.Text.{Text}
use outlay.Json.{Json}
use outlay.Shim.Conn.Loop.{Output, forward, cancel_call, reason}
use outlay.Shim.Translate.{closed_frame}

pub data Phase : Type 0 where
  setting_up : Phase
  -- with the progress token of the call
  streaming : Text → Phase
  -- a chunk of the stream waits for room in the channel
  sending : Text → Text → Phase
  -- so does the CLOSED frame of an error, after which the task returns
  closing : Text → Phase
  returned : Phase

pub record Task : Type 0 where
  pub phase : Phase
  pub permit : Bool
  -- whether the signal was ever given
  pub fired : Bool
  pub outputs : List Output

-- `cancel.notify_one()`
abbrev pub notify : Task → Task
notify s = record s { permit = true; fired = true }

-- What a move asks of the channel: nothing, that it takes a frame, or that its receiver is gone.
pub data Asks : Type 0 where
  nothing gone : Asks
  put : Text → Asks

abbrev pub outputs_then : Phase → List Output → Task → Task
outputs_then phase outputs s = record s { phase = phase; outputs = s.outputs ++ outputs }

module _ (J : Json) (sub_id : Text) where
  -- What the server's side does to the task: `call_tool_stream` is done, or `call.stream.next()` is.
  pub data Hears (s : Task) : Task → Type 0 where
    opened : (token : Text) → s.phase ≡ setting_up → Hears s (record s { phase = streaming token })
    refused :
        (e : Text)
        → s.phase ≡ setting_up
        → Hears s (record s { phase = closing (closed_frame J sub_id e) })
    chunk :
        (token c : Text)
        → s.phase ≡ streaming token
        → Hears s (record s { phase = sending token c })
    failed :
        (token e : Text)
        → s.phase ≡ streaming token
        → Hears s (record s { phase = closing (closed_frame J sub_id e) })
    ended : (token : Text) → s.phase ≡ streaming token → Hears s (record s { phase = returned })

  -- What the task does by itself: take the signal, or go on with a send.
  pub data Moves (s : Task) : Asks → Task → Type 0 where
    give_up :
        s.phase ≡ setting_up
        → s.permit ≡ true
        → Moves s nothing (record (outputs_then returned [] s) { permit = false })
    abort :
        (token : Text)
        → s.phase ≡ streaming token
        → s.permit ≡ true
        → Moves s nothing
            (record (outputs_then returned (cancel_call token reason ∷ []) s) { permit = false })
    send :
        (token c : Text)
        → s.phase ≡ sending token c
        → Moves s (put c) (outputs_then (streaming token) (forward c ∷ []) s)
    lose :
        (token c : Text)
        → s.phase ≡ sending token c
        → Moves s gone (outputs_then returned (forward c ∷ []) s)
    send_last :
        (frame : Text)
        → s.phase ≡ closing frame
        → Moves s (put frame) (outputs_then returned (forward frame ∷ []) s)
    lose_last :
        (frame : Text)
        → s.phase ≡ closing frame
        → Moves s gone (outputs_then returned (forward frame ∷ []) s)

  abbrev pub init : Task
  init = record { phase = setting_up; permit = false; fired = false; outputs = [] }

  pub data Reach : Task → Type 0 where
    start : Reach init
    fire : {s : Task} → Reach s → Reach (notify s)
    hear : {s t : Task} → Reach s → Hears s t → Reach t
    move : {s t : Task} {a : Asks} → Reach s → Moves s a t → Reach t
