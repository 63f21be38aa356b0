-- ===== src/Shim/Conn/Loop.antt =====
-- `subscribe_loop` of crates/outlay-shim/src/conn.rs: one open-stream call, from its set-up to its
-- end. Each `select!` is given by the branch that is ready, with whether the writer of the
-- connection still takes a frame.
use outlay.Base.{Bool, true, false, List, [], ◌∷◌, ◌++◌, ◌≡◌, refl, ap, map, if◌then◌else◌}
use outlay.Base.Text.{Text, codes}
use outlay.Json.{Json}
use outlay.Shim.Translate.{closed_frame}

-- `call_tool_stream` answers with the progress token of the call or an error, or the cancel signal
-- comes first.
pub data Setup : Type 0 where
  opened refused : Text → Setup
  cancelled : Setup

-- One round of the loop: a chunk, with whether it could be sent on; an error; the end of the
-- stream; the cancel signal.
pub data Round : Type 0 where
  chunk : Text → Bool → Round
  error : Text → Round
  ended cancelled : Round

pub data Output : Type 0 where
  -- `tx.send(Message::text(..))`
  forward : Text → Output
  -- `handle.cancel(token, reason)`
  cancel_call : Text → Text → Output

-- The frames that a task sends into the channel.
unfoldable pub sent_by : List Output → List Text
sent_by [] = []
sent_by (forward c ∷ outputs) = c ∷ sent_by outputs
sent_by (cancel_call token reason ∷ outputs) = sent_by outputs

pub sent_by-map : (cs : List Text) → sent_by (map forward cs) ≡ cs
unfolding sent_by
sent_by-map [] = refl
sent_by-map (c ∷ cs) = ap (◌∷◌ c) (sent_by-map cs)

pub sent_by-append : (xs ys : List Output) → sent_by (xs ++ ys) ≡ sent_by xs ++ sent_by ys
unfolding sent_by
sent_by-append [] ys = refl
sent_by-append (forward c ∷ xs) ys = ap (◌∷◌ c) (sent_by-append xs ys)
sent_by-append (cancel_call token r ∷ xs) ys = sent_by-append xs ys

abbrev pub reason : Text
reason = codes "client closed subscription"

module _ (J : Json) (sub_id : Text) where
  -- The outputs, and whether the task has returned.
  unfoldable pub rounds : Text → List Round → List Output × Bool
  rounds token [] = ([], false)
  rounds token (chunk c sent ∷ rs) =
      let rest = rounds token rs in
      if sent then (forward c ∷ rest.0, rest.1) else (forward c ∷ [], true)
  rounds token (error e ∷ rs) = (forward (closed_frame J sub_id e) ∷ [], true)
  rounds token (ended ∷ rs) = ([], true)
  rounds token (cancelled ∷ rs) = (cancel_call token reason ∷ [], true)

  unfoldable pub subscribe_loop : Setup → List Round → List Output × Bool
  unfolding rounds
  subscribe_loop (refused e) rs = (forward (closed_frame J sub_id e) ∷ [], true)
  subscribe_loop cancelled rs = ([], true)
  subscribe_loop (opened token) rs = rounds token rs

  -- Chunks that all went out.
  abbrev pub chunks : List Text → List Round
  chunks [] = []
  chunks (c ∷ cs) = chunk c true ∷ chunks cs

  abbrev pub last_words : Text → Round → List Output
  last_words token (chunk c sent) = forward c ∷ []
  last_words token (error e) = forward (closed_frame J sub_id e) ∷ []
  last_words token ended = []
  last_words token cancelled = cancel_call token reason ∷ []

  abbrev pub Ends : Round → Type 0
  Ends (chunk c sent) = sent ≡ false
  Ends r = Unit

  rounds_lem :
      (token : Text) (cs : List Text) (r : Round) (rs : List Round)
      → Ends r
      → rounds token (chunks cs ++ r ∷ rs) ≡ (map forward cs ++ last_words token r, true)
  unfolding rounds
  rounds_lem token [] (chunk c sent) rs h = rw h
  rounds_lem token [] (error e) rs h = refl
  rounds_lem token [] ended rs h = refl
  rounds_lem token [] cancelled rs h = refl
  rounds_lem token (c ∷ cs) r rs h = rw (rounds_lem token cs r rs h)

  -- Once the call is open its chunks go to the client verbatim and in order, up to the first round
  -- that ends it: an error becomes a CLOSED frame, the cancel signal aborts the call by its token,
  -- once, and nothing is sent after either, whatever the stream would still have brought.
  pub subscribe_loop_lem :
      (token : Text) (cs : List Text) (r : Round) (rs : List Round)
      → Ends r
      → subscribe_loop (opened token) (chunks cs ++ r ∷ rs)
        ≡ (map forward cs ++ last_words token r, true)
  unfolding subscribe_loop
  subscribe_loop_lem token cs r rs h = rounds_lem token cs r rs h
