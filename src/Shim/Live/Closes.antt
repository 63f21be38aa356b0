-- ===== src/Shim/Live/Closes.antt =====
-- The end of a connection (crates/outlay-shim/src/conn.rs): behind the loop over the frames nothing
-- waits for ever, whatever the server's streams do.
use outlay.Base.{
  ℕ, zero, suc, ◌<◌, true, false, List, [], ◌∷◌, ◌++◌, ◌≡◌, ◌≢◌, ◌⊎◌, refl, sym, ap, ◌∙◌, inl, inr,
  arith, All, Bool-cases, eqb, length, append_assoc,
}
use mathlib.Core.Path.{subst}
use outlay.Base.Text.{Text}
use outlay.Json.{Json}
use outlay.Shim.Conn.{Effect, cancel, spawn_subscribe, spawn_publish, send}
use outlay.Shim.Conn.Cancel
use outlay.Shim.Conn.Cancel.{
  Phase, setting_up, streaming, sending, closing, returned, Task, Asks, put, gone, nothing, Moves,
}
use outlay.Shim.Conn.Cancel.Signal.{IsSound-permitted}
use outlay.Shim.Conn.Writer.{running, is_gone}
use outlay.Shim.Conn.Writer.Ends.{Writer-cases}
use outlay.Shim.Live.{
  Worker, subscriber, calling, answering, published, Loop, doing, joining, over, Live, notify_if,
  carried, IsDead, Acts, does, leaves, joins, moves, publishes, writes, fails, closes, finishes,
  Frames, Reach,
}
use outlay.Shim.Live.Invariant.{InvOf, IsCancel, IsSoundWorker}
use outlay.Shim.Live.Steps.{at, Acts-Inv, Reach-Inv}
use outlay.Shim.Live.Tracked.{IsSignalled, IsSignalled-left}
use outlay.Shim.Live.Work.{measure, Acts-measure}
use outlay.Shim.Live.Workers.{All_replace, All-map}

module _ (J : Json) where
  -- The loop over the frames has been left.
  abbrev pub Left : Loop J → Type 0
  Left (doing es false) = ⊥
  Left l = Unit

  -- The server has answered the publication.
  abbrev pub IsAnswered : Worker J → Type 0
  IsAnswered (calling event) = ⊥
  IsAnswered w = Unit

  -- The connection is closed, with every task returned and the writer at its end.
  pub record IsOver (c : Live J) : Type 0 where
    pub closed : c.loop ≡ over
    pub alone : All (IsDead J) c.workers
    pub ended : is_gone c.writer ≡ true

  -- Every run of the connection's own steps ends, and it can only end closed.
  pub data Halts : Live J → Type 0 where
    halts :
        (c : Live J)
        → ((d : Live J) × Acts J c d) ⊎ IsOver c
        → ((d : Live J) → Acts J c d → Halts d)
        → Halts c

  -- A send does not wait: there is room, or the receiver is gone.
  abbrev pub Open : Live J → Type 0
  Open c = ((is_gone c.writer ≡ false) × (c.queue ≡ [])) ⊎ (is_gone c.writer ≡ true)

  task_acts :
      (c : Live J) (before after : List (Worker J)) (n : ℕ) (sub_id : Text) (s : Task) (p : Phase)
      → c.workers ≡ before ++ subscriber n sub_id s ∷ after
      → s.phase ≡ p
      → (p ≢ returned → s.permit ≡ true)
      → Open c
      → ((d : Live J) × Acts J c d) ⊎ (p ≡ returned)
  task_acts c before after n sub_id s returned e h k room = inr refl
  task_acts c before after n sub_id s setting_up e h k room =
      inl (_, moves before after n sub_id s _ _ c.queue e (Cancel.give_up h (k (λ x. cc))) refl)
  task_acts c before after n sub_id s (streaming token) e h k room =
      inl (_, moves before after n sub_id s _ _ c.queue e (Cancel.abort token h (k (λ x. cc))) refl)
  task_acts c before after n sub_id s (sending token t) e h k (inl (w, q)) = inl (
    _,
    moves before after n sub_id s _ _ _ e (Cancel.send token t h)
        (w, omega (arith, ap length q), refl),
  )
  task_acts c before after n sub_id s (sending token t) e h k (inr w) =
      inl (_, moves before after n sub_id s _ _ _ e (Cancel.lose token t h) (w, refl))
  task_acts c before after n sub_id s (closing frame) e h k (inl (w, q)) = inl (
    _,
    moves before after n sub_id s _ _ _ e (Cancel.send_last frame h)
        (w, omega (arith, ap length q), refl),
  )
  task_acts c before after n sub_id s (closing frame) e h k (inr w) =
      inl (_, moves before after n sub_id s _ _ _ e (Cancel.lose_last frame h) (w, refl))

  worker_acts :
      (c : Live J) (before after : List (Worker J)) (w : Worker J)
      → c.workers ≡ before ++ w ∷ after
      → IsSoundWorker J w
      → IsSignalled J w
      → IsAnswered w
      → Open c
      → ((d : Live J) × Acts J c d) ⊎ IsDead J w
  worker_acts c before after (subscriber n sub_id s) e o f a room =
      task_acts c before after n sub_id s s.phase e refl (λ ne. IsSound-permitted J sub_id s o ne f)
        room
  worker_acts c before after (calling event) e o f a room = absurd a
  worker_acts c before after (answering frame) e o f a (inl (w, q)) =
      inl (_, publishes before after frame _ e (inl (w, omega (arith, ap length q), refl)))
  worker_acts c before after (answering frame) e o f a (inr w) =
      inl (_, publishes before after frame _ e (inr (w, refl)))
  worker_acts c before after published e o f a room = inr tt

  -- Some worker can go on, or all are done.
  someone_acts :
      (c : Live J) (before ws : List (Worker J))
      → c.workers ≡ before ++ ws
      → All (IsSoundWorker J) ws
      → All (IsSignalled J) ws
      → All IsAnswered ws
      → Open c
      → ((d : Live J) × Acts J c d) ⊎ All (IsDead J) ws
  someone_acts c before [] e os fs rest room = inr tt
  someone_acts c before (w ∷ ws) e (o, os) (f, fs) (a, rest) room =
      elim (worker_acts c before ws w e o f a room) [
        | inl step ↦ inl step
        | inr dead ↦
            elim (someone_acts c (before ++ w ∷ []) ws (e ∙ sym (append_assoc before (w ∷ []) ws))
              os fs rest room) [ inl step ↦ inl step | inr all ↦ inr (dead, all) ]
      ]

  Left-Acts :
      (c : Live J) (l : Loop J)
      → c.loop ≡ l
      → Left l
      → InvOf J c
      → All IsAnswered c.workers
      → ((d : Live J) × Acts J c d) ⊎ IsOver c
  Left-Acts c (doing es false) e h o a = absurd h
  Left-Acts c (doing [] true) e h o a = inl (_, leaves e)
  Left-Acts c (doing (cancel n ∷ es) true) e h o a = inl (_, does (cancel n) es true c.queue e refl)
  Left-Acts c (doing (spawn_subscribe n sub_id filters ∷ es) true) e h o a =
      absurd (at J c _ c.workers e refl o).fits.0
  Left-Acts c (doing (spawn_publish event ∷ es) true) e h o a =
      absurd (at J c _ c.workers e refl o).fits.0
  Left-Acts c (doing (send t ∷ es) true) e h o a = absurd (at J c _ c.workers e refl o).fits.0
  Left-Acts c joining e h o a = elim (Writer-cases c.writer) [
    | inr (inl w) ↦ inl (_, closes w)
    | inr (inr w) ↦ inl (_, joins e w)
    | inl w ↦ drained c c.queue refl w e o a
  ]
    where
      drained :
          (c : Live J) (queue : Frames)
          → c.queue ≡ queue
          → c.writer ≡ running
          → c.loop ≡ joining
          → InvOf J c
          → All IsAnswered c.workers
          → ((d : Live J) × Acts J c d) ⊎ IsOver c
      drained c (m ∷ queue) q w e o a = inl (_, writes m queue w q)
      drained c [] q w e o a =
          elim (someone_acts c [] c.workers refl o.sound
            (IsSignalled-left J c c.loop refl (inl e) o) a (inl (ap is_gone w, q))) [
              | inl step ↦ inl step
              | inr dead ↦ inl (_, finishes w q e dead)
            ]
  Left-Acts c over e h o a =
      let w = o.joined e in
      elim (someone_acts c [] c.workers refl o.sound (IsSignalled-left J c c.loop refl (inr e) o) a
        (inr w)) [
          | inl step ↦ inl step
          | inr dead ↦ inr (record { closed = e; alone = dead; ended = w })
        ]

  notify_if-IsAnswered : (n : ℕ) (w : Worker J) → IsAnswered w → IsAnswered (notify_if J n w)
  unfolding notify_if
  notify_if-IsAnswered n (subscriber i sub_id s) a = elim (Bool-cases (eqb i n)) [
    | inl e ↦ rw e tt
    | inr e ↦ rw e tt
  ]
  notify_if-IsAnswered n (calling event) a = absurd a
  notify_if-IsAnswered n (answering frame) a = tt
  notify_if-IsAnswered n published a = tt

  carried-IsAnswered :
      (e : Effect J) (ws : List (Worker J))
      → IsCancel J e
      → All IsAnswered ws
      → All IsAnswered (carried J e ws)
  unfolding carried
  carried-IsAnswered (cancel n) ws h a = All-map J _ _ _ ws (notify_if-IsAnswered n) a
  carried-IsAnswered (spawn_subscribe n sub_id filters) ws h a = absurd h
  carried-IsAnswered (spawn_publish event) ws h a = absurd h
  carried-IsAnswered (send t) ws h a = absurd h

  -- The loop stays left, and no publication is begun.
  Acts-Left :
      {b c : Live J}
      → Acts J b c
      → InvOf J b
      → Left b.loop
      → All IsAnswered b.workers
      → Left c.loop × All IsAnswered c.workers
  Acts-Left {b} (does e es true after h s) o l a =
      (tt, carried-IsAnswered e b.workers (at J b _ b.workers h refl o).fits.0 a)
  Acts-Left {b} (does e es false after h s) o l a = absurd (subst Left h l)
  Acts-Left (leaves h) o l a = (tt, a)
  Acts-Left (joins h w) o l a = (tt, a)
  Acts-Left {b} (moves before rest n sub_id s t k after e m p) o l a = (
    l,
    All_replace J IsAnswered before rest (subscriber n sub_id s) _ (λ x. tt)
        (subst (All IsAnswered) e a),
  )
  Acts-Left {b} (publishes before rest frame after e p) o l a = (
    l,
    All_replace J IsAnswered before rest (answering frame) published (λ x. tt)
        (subst (All IsAnswered) e a),
  )
  Acts-Left (writes m queue w q) o l a = (l, a)
  Acts-Left (fails m queue w q) o l a = (l, a)
  Acts-Left (closes w) o l a = (l, a)
  Acts-Left (finishes w q e d) o l a = (l, a)

  Halts-within :
      (n : ℕ) (c : Live J)
      → measure J c < n
      → InvOf J c
      → Left c.loop
      → All IsAnswered c.workers
      → Halts c
  Halts-within zero c h o l a = absurd (omega (arith, h))
  Halts-within (suc n) c h o l a = halts c (Left-Acts c c.loop refl l o a) λ d s.
      let (l', a') = Acts-Left s o l a in
      Halts-within n d (omega (arith, h, Acts-measure J s)) (Acts-Inv J s o) l' a'

  -- Once the client is gone and its publications have been answered, the connection comes to its end
  -- by itself, whatever its subscriptions were doing and however full the channel is, and with no
  -- word from the server: every run of its own steps, in which a write, a close or a cancellation
  -- that is awaited completes, is finite, and it can stop only when
  -- `handle_ws` is over, every task has returned and the writer has ended.
  pub Reach-Halts : {c : Live J} → Reach J c → Left c.loop → All IsAnswered c.workers → Halts c
  Reach-Halts {c} r l a = Halts-within (suc (measure J c)) c (omega arith) (Reach-Inv J r) l a
