-- ===== src/Shim/Live/Steps.antt =====
-- Every step of a running connection (crates/outlay-shim/src/conn.rs) keeps its invariant.
use outlay.Base.{ap, List, ◌≡◌, refl, arith, inl}
use mathlib.Core.Path.{subst}
use outlay.Json.{Json}
use outlay.Shim.Conn.Cancel.Signal.{Hears-IsSound, Moves-IsSound}
use outlay.Shim.Live.{
  Worker, subscriber, calling, answering, published, Loop, Live, World, frame, hears, answers, Acts,
  does, leaves, joins, moves, publishes, writes, fails, closes, finishes, Reach, start, world, acts,
}
use outlay.Shim.Conn.Writer.{is_gone}
use outlay.Shim.Live.Frames.{receive-Inv}
use outlay.Shim.Live.Carried.{carried-Inv}
use outlay.Shim.Live.Invariant.{Inv, InvOf, replaced-Inv, task_Alike, writer-Inv}
use outlay.Shim.Live.Workers.{Hears-fired, Moves-fired}

module _ (J : Json) where
  -- The invariant with the loop and the workers that a step is stated at.
  pub at :
      (c : Live J) (l : Loop J) (ws : List (Worker J))
      → c.loop ≡ l
      → c.workers ≡ ws
      → InvOf J c
      → Inv J c.conn l ws c.writer
  at c l ws e f o =
      subst (λ x. Inv J c.conn x ws c.writer) e (subst (λ x. Inv J c.conn c.loop x c.writer) f o)

  World-Inv : {b c : Live J} → World J b c → InvOf J b → InvOf J c
  World-Inv {b} (frame f e) o =
      receive-Inv J f b.conn b.workers b.writer (at b _ b.workers e refl o)
  World-Inv {b} (hears before after n sub_id s t e h) o =
      replaced-Inv J b.conn b.loop before after (subscriber n sub_id s) (subscriber n sub_id t)
        b.writer (task_Alike J n sub_id s t (Hears-fired J sub_id h) (Hears-IsSound J sub_id h))
        (at b b.loop _ refl e o)
  World-Inv {b} (answers before after event r e) o =
      replaced-Inv J b.conn b.loop before after (calling event) _ b.writer
        (record {
          number = λ n. refl;
          signal = λ n. refl;
          place = λ next m p. tt;
          soundness = λ p. tt;
        })
        (at b b.loop _ refl e o)

  pub Acts-Inv : {b c : Live J} → Acts J b c → InvOf J b → InvOf J c
  Acts-Inv {b} (does e es left queue h s) o =
      carried-Inv J b.conn e es left b.workers b.writer (at b _ b.workers h refl o)
  Acts-Inv {b} (leaves h) o =
      let i = at b _ b.workers h refl o in
      record {
        valid = i.valid;
        once = i.once;
        fresh = i.fresh;
        balance = i.balance;
        apart = i.apart;
        placed = i.placed;
        placing = i.placing;
        sound = i.sound;
        joined = λ e. cc;
        fits = tt;
      }
  Acts-Inv {b} (joins h w) o =
      let i = at b _ b.workers h refl o in
      record {
        valid = i.valid;
        once = i.once;
        fresh = i.fresh;
        balance = i.balance;
        apart = i.apart;
        placed = i.placed;
        placing = i.placing;
        sound = i.sound;
        joined = λ e. w;
        fits = tt;
      }
  Acts-Inv {b} (moves before after n sub_id s t a queue e m p) o =
      replaced-Inv J b.conn b.loop before after (subscriber n sub_id s) (subscriber n sub_id t)
        b.writer (task_Alike J n sub_id s t (Moves-fired J sub_id m) (Moves-IsSound J sub_id m))
        (at b b.loop _ refl e o)
  Acts-Inv {b} (publishes before after reply queue e p) o =
      replaced-Inv J b.conn b.loop before after (answering reply) published b.writer
        (record {
          number = λ n. refl;
          signal = λ n. refl;
          place = λ next m p. tt;
          soundness = λ p. tt;
        })
        (at b b.loop _ refl e o)
  Acts-Inv (writes m queue w q) o = o
  Acts-Inv {b} (fails m queue w q) o =
      writer-Inv J b.conn b.loop b.workers b.writer _ (λ e. cc (o.joined e, ap is_gone w)) o
  Acts-Inv {b} (closes w) o = writer-Inv J b.conn b.loop b.workers b.writer _ (λ e. refl) o
  Acts-Inv {b} (finishes w q e d) o = writer-Inv J b.conn b.loop b.workers b.writer _ (λ e. refl) o

  pub Reach-Inv : {c : Live J} → Reach J c → InvOf J c
  Reach-Inv start = record {
    valid = record { distinct = tt; below = tt };
    once = λ n. omega arith;
    fresh = λ n h. refl;
    balance = λ n. refl;
    apart = λ n. inl refl;
    placed = tt;
    placing = tt;
    sound = tt;
    joined = λ h. cc;
    fits = tt;
  }
  Reach-Inv (world r s) = World-Inv s (Reach-Inv r)
  Reach-Inv (acts r s) = Acts-Inv s (Reach-Inv r)
