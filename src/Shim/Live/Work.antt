-- ===== src/Shim/Live/Work.antt =====
-- The work that a connection (crates/outlay-shim/src/conn.rs) has yet to do by itself: every step of
-- its own lowers it.
use outlay.Base.{
  Option, some, none, ℕ, suc, ◌+◌, ◌≤◌, ◌<◌, List, [], ◌∷◌, ◌≡◌, refl, ap, inl, inr, arith, map,
  Bool-cases, eqb, length, length-append,
}
use outlay.Base.Text.{Text}
use outlay.Json.{Json}
use outlay.Shim.Conn.{Effect, cancel, spawn_subscribe, spawn_publish, send}
use outlay.Shim.Conn.Cancel
use outlay.Shim.Conn.Cancel.{
  Phase, setting_up, streaming, sending, closing, returned, Task, Asks, nothing, gone, put, Moves,
}
use outlay.Shim.Conn.Writer.{Writer}
use outlay.Shim.Conn.Writer.Ends.{writer_work}
use outlay.Shim.Live.{
  Worker, subscriber, calling, answering, published, Loop, doing, joining, over, Live, Frames,
  notify_if, carried, Passes, Offers, Sent, Acts, does, leaves, joins, moves, publishes, writes,
  fails, closes, finishes,
}
use outlay.Shim.Live.Workers.{sum, sum-append, sum-replace}

module _ (J : Json) where
  -- What there is to do yet.
  abbrev pub phase_work : Phase → ℕ
  phase_work setting_up = 1
  phase_work (streaming token) = 1
  phase_work (sending token c) = 3
  phase_work (closing frame) = 2
  phase_work returned = 0

  abbrev pub work : Worker J → ℕ
  work (subscriber n sub_id s) = phase_work s.phase
  work (calling event) = 0
  work (answering frame) = 2
  work published = 0

  abbrev pub effect_work : List (Effect J) → ℕ
  effect_work [] = 0
  effect_work (cancel n ∷ es) = 1 + effect_work es
  effect_work (spawn_subscribe n sub_id filters ∷ es) = 2 + effect_work es
  effect_work (spawn_publish event ∷ es) = 1 + effect_work es
  effect_work (send t ∷ es) = 2 + effect_work es

  abbrev pub loop_work : Loop J → ℕ
  loop_work (doing es left) = 2 + effect_work es
  loop_work joining = 1
  loop_work over = 0

  abbrev pub measure : Live J → ℕ
  measure c = loop_work c.loop + sum J work c.workers + length c.queue + writer_work c.writer

  work-notify_if : (n : ℕ) (w : Worker J) → work (notify_if J n w) ≡ work w
  unfolding notify_if
  work-notify_if n (subscriber i sub_id s) = elim (Bool-cases (eqb i n)) [
    | inl e ↦ rw e
    | inr e ↦ rw e
  ]
  work-notify_if n (calling event) = refl
  work-notify_if n (answering frame) = refl
  work-notify_if n published = refl

  sum-work-notify :
      (n : ℕ) (ws : List (Worker J)) → sum J work (map (notify_if J n) ws) ≡ sum J work ws
  sum-work-notify n [] = refl
  sum-work-notify n (w ∷ ws) = omega (arith, work-notify_if n w, sum-work-notify n ws)

  length-Offers :
      (t : Text) (p : Writer) (queue after : Frames)
      → Offers t p queue after
      → length after ≤ suc (length queue)
  length-Offers t p queue after (inl (w, lt, e)) =
      omega (arith, ap length e, length-append queue ((none, t) ∷ []))
  length-Offers t p queue after (inr (w, e)) = omega (arith, ap length e)

  does-measure :
      (e : Effect J) (es : List (Effect J)) (ws : List (Worker J)) (p : Writer)
      (queue after : Frames)
      → Sent J e p queue after
      → effect_work es + sum J work (carried J e ws) + length after
        < effect_work (e ∷ es) + sum J work ws + length queue
  unfolding carried
  does-measure (cancel n) es ws p queue after s = omega (arith, sum-work-notify n ws, ap length s)
  does-measure (spawn_subscribe n sub_id filters) es ws p queue after s =
      omega
        (arith, sum-append J work ws (subscriber n sub_id (Cancel.init J sub_id) ∷ []), ap length s)
  does-measure (spawn_publish event) es ws p queue after s =
      omega (arith, sum-append J work ws (calling event ∷ []), ap length s)
  does-measure (send t) es ws p queue after s = omega (arith, length-Offers t p queue after s)

  Moves-measure :
      (i : Option ℕ) (sub_id : Text) (p : Writer) (queue after : Frames) {s t : Task} {a : Asks}
      → Moves J sub_id s a t
      → Passes i a p queue after
      → phase_work t.phase + length after < phase_work s.phase + length queue
  Moves-measure i sub_id p queue after (Cancel.give_up h q) e =
      omega (arith, ap phase_work h, ap length e)
  Moves-measure i sub_id p queue after (Cancel.abort token h q) e =
      omega (arith, ap phase_work h, ap length e)
  Moves-measure i sub_id p queue after (Cancel.send token c h) (w, lt, e) =
      omega (arith, ap phase_work h, ap length e, length-append queue ((i, c) ∷ []))
  Moves-measure i sub_id p queue after (Cancel.lose token c h) (w, e) =
      omega (arith, ap phase_work h, ap length e)
  Moves-measure i sub_id p queue after (Cancel.send_last frame h) (w, lt, e) =
      omega (arith, ap phase_work h, ap length e, length-append queue ((i, frame) ∷ []))
  Moves-measure i sub_id p queue after (Cancel.lose_last frame h) (w, e) =
      omega (arith, ap phase_work h, ap length e)

  pub Acts-measure : {b c : Live J} → Acts J b c → measure c < measure b
  Acts-measure {b} (does e es left after h s) =
      omega (arith, ap loop_work h, does-measure e es b.workers b.writer b.queue after s)
  Acts-measure (leaves h) = omega (arith, ap loop_work h)
  Acts-measure (joins h w) = omega (arith, ap loop_work h)
  Acts-measure {b} (moves before rest n sub_id s t a after e m p) = omega (
    arith,
    ap (sum J work) e,
    sum-replace J work before rest (subscriber n sub_id s) (subscriber n sub_id t),
    Moves-measure (some n) sub_id b.writer b.queue after m p,
  )
  Acts-measure {b} (publishes before rest frame after e p) = omega (
    arith,
    ap (sum J work) e,
    sum-replace J work before rest (answering frame) published,
    length-Offers frame b.writer b.queue after p,
  )
  Acts-measure (writes m queue w q) = omega (arith, ap length q)
  Acts-measure (fails m queue w q) = omega (arith, ap length q, ap writer_work w)
  Acts-measure (closes w) = omega (arith, ap writer_work w)
  Acts-measure (finishes w q e d) = omega (arith, ap writer_work w)
