-- ===== src/Shim/Live/Shapes.antt =====
-- The frames that the shim makes itself (crates/outlay-shim/src/translate.rs), and where a connection
-- (crates/outlay-shim/src/conn.rs) has them.
use outlay.Base.{
  ℕ, Bool, Option, some, none, List, [], ◌∷◌, ◌≡◌, ◌⊎◌, sym, inl, inr, All, All-append, eqb,
  Bool-cases,
}
use outlay.Base.Res.{Result, ok, err}
use mathlib.Core.Path.{subst}
use outlay.Base.Text.{Text, codes}
use outlay.Json.{Json}
use outlay.Json.Laws.{HasTexts}
use outlay.Shim.Conn.{
  Conn, Inbound, text, closed, failed, ignored, Effect, cancel, spawn_subscribe, spawn_publish,
  send, Subs, remove, on_msg, cancel_all, cancel_some,
}
use outlay.Shim.Conn.Cancel
use outlay.Shim.Conn.Cancel.{
  Task, Phase, setting_up, streaming, sending, closing, returned, Hears, Moves, Asks, put, gone,
  nothing,
}
use outlay.Shim.Conn.Writer.{Writer}
use outlay.Shim.Live.{
  Frames, Worker, subscriber, calling, answering, published, Live, receive, notify_if, carried,
  Passes, Offers, Sent,
}
use outlay.Shim.Live.Invariant.{pending}
use outlay.Shim.Live.Workers.{All-map}
use outlay.Shim.Publish.{answer_frame}
use outlay.Shim.Translate.{
  ClientMsg, req, close, publish, parse_client_frame, ok_frame, notice_frame, closed_frame,
}

module _ (J : Json) where
  open J use {Value, string, boolean, parse_array}

  -- NIP-01's NOTICE and OK.
  abbrev pub IsOwn : Text → Type 0
  IsOwn f =
      ((msg : Text) × (parse_array f ≡ some (string (codes "NOTICE") ∷ string msg ∷ [])))
      ⊎ ((id : Text) × (accepted : Bool) × (msg : Text) × (parse_array f
            ≡ some (string (codes "OK") ∷ string id ∷ boolean accepted ∷ string msg ∷ [])))

  -- NIP-01's CLOSED for a subscription.
  abbrev pub IsClosed : Text → Text → Type 0
  IsClosed sub_id f =
      (msg : Text) × (parse_array f
        ≡ some (string (codes "CLOSED") ∷ string sub_id ∷ string msg ∷ []))

  -- A frame of a task is the server's, or its CLOSED; any other is the shim's own.
  abbrev pub IsFrame : Option ℕ × Text → Type 0
  IsFrame (none, f) = IsOwn f
  IsFrame (some n, f) = Unit

  abbrev pub IsTypedEffect : Effect J → Type 0
  IsTypedEffect (send t) = IsOwn t
  IsTypedEffect e = Unit

  abbrev pub IsTypedPhase : Text → Phase → Type 0
  IsTypedPhase sub_id (closing f) = IsClosed sub_id f
  IsTypedPhase sub_id p = Unit

  abbrev pub IsTypedWorker : Worker J → Type 0
  IsTypedWorker (subscriber n sub_id s) = IsTypedPhase sub_id s.phase
  IsTypedWorker (answering f) = IsOwn f
  IsTypedWorker w = Unit

  pub record IsTyped (c : Live J) : Type 0 where
    pub waiting : All IsFrame c.queue
    pub written : All IsFrame c.wire
    pub effects : All IsTypedEffect (pending J c.loop)
    pub workers : All IsTypedWorker c.workers

  module _ (L : HasTexts J) where
    closed_frame-IsClosed : (sub_id e : Text) → IsClosed sub_id (closed_frame J sub_id e)
    unfolding closed_frame
    closed_frame-IsClosed sub_id e = (e, L.parse_array-display _)

    notice_frame-IsOwn : (msg : Text) → IsOwn (notice_frame J msg)
    unfolding notice_frame
    notice_frame-IsOwn msg = inl (msg, L.parse_array-display _)

    ok_frame-IsOwn : (id : Text) (accepted : Bool) (msg : Text) → IsOwn (ok_frame J id accepted msg)
    unfolding ok_frame
    ok_frame-IsOwn id accepted msg = inr (id, accepted, msg, L.parse_array-display _)

    pub answer_frame-IsOwn :
        (id : Text) (r : Result Text (Option Value)) → IsOwn (answer_frame J id r)
    unfolding answer_frame
    answer_frame-IsOwn id (ok content) = ok_frame-IsOwn _ _ _
    answer_frame-IsOwn id (err e) = ok_frame-IsOwn _ _ _

    cancel_some-IsTyped : (o : Option ℕ) → All IsTypedEffect (cancel_some J o)
    cancel_some-IsTyped none = tt
    cancel_some-IsTyped (some n) = (tt, tt)

    cancel_all-IsTyped : (m : Subs) → All IsTypedEffect (cancel_all J m)
    unfolding cancel_all
    cancel_all-IsTyped [] = tt
    cancel_all-IsTyped ((k, n) ∷ m) = (tt, cancel_all-IsTyped m)

    on_msg-IsTyped : (c : Conn) (m : Option (ClientMsg J)) → All IsTypedEffect (on_msg J c m).1
    unfolding on_msg
    on_msg-IsTyped c (some (req k filters)) =
        All-append _ (cancel_some J (remove k c.subs).0) _ (cancel_some-IsTyped _) (tt, tt)
    on_msg-IsTyped c (some (close k)) = cancel_some-IsTyped _
    on_msg-IsTyped c (some (publish event)) = (tt, tt)
    on_msg-IsTyped c none = (notice_frame-IsOwn _, tt)

    pub receive-IsTyped :
        (f : Option Inbound) (c : Conn) → All IsTypedEffect (pending J (receive J f c).1)
    unfolding receive
    receive-IsTyped (some (text t)) c = on_msg-IsTyped c (parse_client_frame J t)
    receive-IsTyped (some ignored) c = tt
    receive-IsTyped (some closed) c = cancel_all-IsTyped c.subs
    receive-IsTyped (some failed) c = cancel_all-IsTyped c.subs
    receive-IsTyped none c = cancel_all-IsTyped c.subs

    pub Hears-IsTyped :
        (sub_id : Text) {s t : Task} → Hears J sub_id s t → IsTypedPhase sub_id t.phase
    Hears-IsTyped sub_id (Cancel.opened token p) = tt
    Hears-IsTyped sub_id (Cancel.refused e p) = closed_frame-IsClosed sub_id e
    Hears-IsTyped sub_id (Cancel.chunk token c p) = tt
    Hears-IsTyped sub_id (Cancel.failed token e p) = closed_frame-IsClosed sub_id e
    Hears-IsTyped sub_id (Cancel.ended token p) = tt

    pub Moves-IsTyped :
        (sub_id : Text) {s t : Task} {a : Asks} → Moves J sub_id s a t → IsTypedPhase sub_id t.phase
    Moves-IsTyped sub_id (Cancel.give_up p q) = tt
    Moves-IsTyped sub_id (Cancel.abort token p q) = tt
    Moves-IsTyped sub_id (Cancel.send token c p) = tt
    Moves-IsTyped sub_id (Cancel.lose token c p) = tt
    Moves-IsTyped sub_id (Cancel.send_last f p) = tt
    Moves-IsTyped sub_id (Cancel.lose_last f p) = tt

    notify_if-IsTyped : (n : ℕ) (w : Worker J) → IsTypedWorker w → IsTypedWorker (notify_if J n w)
    unfolding notify_if
    notify_if-IsTyped n (subscriber i sub_id s) h = elim (Bool-cases (eqb i n)) [
      | inl e ↦ rw e h
      | inr e ↦ rw e h
    ]
    notify_if-IsTyped n (calling event) h = tt
    notify_if-IsTyped n (answering f) h = h
    notify_if-IsTyped n published h = tt

    pub carried-IsTyped :
        (e : Effect J) (ws : List (Worker J))
        → All IsTypedWorker ws
        → All IsTypedWorker (carried J e ws)
    unfolding carried
    carried-IsTyped (cancel n) ws h = All-map J _ _ _ ws (notify_if-IsTyped n) h
    carried-IsTyped (spawn_subscribe n sub_id filters) ws h = All-append _ ws _ h (tt, tt)
    carried-IsTyped (spawn_publish event) ws h = All-append _ ws _ h (tt, tt)
    carried-IsTyped (send t) ws h = h

    pub Offers-IsTyped :
        (t : Text) (p : Writer) (queue after : Frames)
        → IsOwn t
        → Offers t p queue after
        → All IsFrame queue
        → All IsFrame after
    Offers-IsTyped t p queue after h (inl (g, lt, e)) o =
        subst (All IsFrame) (sym e) (All-append _ queue _ o (h, tt))
    Offers-IsTyped t p queue after h (inr (g, e)) o = subst (All IsFrame) (sym e) o

    pub Sent-IsTyped :
        (e : Effect J) (p : Writer) (queue after : Frames)
        → IsTypedEffect e
        → Sent J e p queue after
        → All IsFrame queue
        → All IsFrame after
    Sent-IsTyped (cancel n) p queue after h s o = subst (All IsFrame) (sym s) o
    Sent-IsTyped (spawn_subscribe n sub_id filters) p queue after h s o =
        subst (All IsFrame) (sym s) o
    Sent-IsTyped (spawn_publish event) p queue after h s o = subst (All IsFrame) (sym s) o
    Sent-IsTyped (send t) p queue after h s o = Offers-IsTyped t p queue after h s o

    pub Passes-IsTyped :
        (n : ℕ) (a : Asks) (p : Writer) (queue after : Frames)
        → Passes (some n) a p queue after
        → All IsFrame queue
        → All IsFrame after
    Passes-IsTyped n nothing p queue after e o = subst (All IsFrame) (sym e) o
    Passes-IsTyped n (put f) p queue after (g, lt, e) o =
        subst (All IsFrame) (sym e) (All-append _ queue _ o (tt, tt))
    Passes-IsTyped n gone p queue after (g, e) o = subst (All IsFrame) (sym e) o
