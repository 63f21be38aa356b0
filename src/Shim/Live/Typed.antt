-- ===== src/Shim/Live/Typed.antt =====
-- The frames that the shim makes itself (crates/outlay-shim/src/translate.rs), on a running connection
-- (crates/outlay-shim/src/conn.rs).
use outlay.Base.{List, ◌≡◌, All, All-append}
use mathlib.Core.Path.{subst}
use outlay.Json.{Json}
use outlay.Json.Laws.{HasTexts}
use outlay.Shim.Live.{
  Worker, subscriber, calling, answering, published, Live, World, frame, hears, answers, Acts, does,
  leaves, joins, moves, publishes, writes, fails, closes, finishes, Reach, start, world, acts,
}
use outlay.Shim.Live.Invariant.{pending}
use outlay.Shim.Live.Workers.{All_replace, All_at}
use outlay.Shim.Publish.{event_id_of}
use outlay.Shim.Live.Shapes.{
  IsFrame, IsTypedEffect, IsTypedWorker, IsTyped, receive-IsTyped, Hears-IsTyped, Moves-IsTyped,
  carried-IsTyped, Offers-IsTyped, Sent-IsTyped, Passes-IsTyped, answer_frame-IsOwn,
}

module _ (J : Json) (L : HasTexts J) where
  at_workers :
      (c : Live J) (ws : List (Worker J)) → c.workers ≡ ws → IsTyped J c → All (IsTypedWorker J) ws
  at_workers c ws e o = subst (All (IsTypedWorker J)) e o.workers

  World-IsTyped : {b c : Live J} → World J b c → IsTyped J b → IsTyped J c
  World-IsTyped {b} (frame f e) o = record {
    waiting = o.waiting;
    written = o.written;
    effects = receive-IsTyped J L f b.conn;
    workers = o.workers;
  }
  World-IsTyped {b} (hears before after n sub_id s t e h) o = record {
    waiting = o.waiting;
    written = o.written;
    effects = o.effects;
    workers =
        All_replace J _ before after (subscriber n sub_id s) _ (λ x. Hears-IsTyped J L sub_id h)
          (at_workers b _ e o);
  }
  World-IsTyped {b} (answers before after event r e) o = record {
    waiting = o.waiting;
    written = o.written;
    effects = o.effects;
    workers =
        All_replace J _ before after (calling event) _
          (λ x. answer_frame-IsOwn J L (event_id_of J event) r) (at_workers b _ e o);
  }

  Acts-IsTyped : {b c : Live J} → Acts J b c → IsTyped J b → IsTyped J c
  Acts-IsTyped {b} (does e es left queue h s) o =
      let (p, ps) = subst (λ l. All (IsTypedEffect J) (pending J l)) h o.effects in
      record {
        waiting = Sent-IsTyped J L e b.writer b.queue queue p s o.waiting;
        written = o.written;
        effects = ps;
        workers = carried-IsTyped J L e b.workers o.workers;
      }
  Acts-IsTyped (leaves h) o = record {
    waiting = o.waiting;
    written = o.written;
    effects = tt;
    workers = o.workers;
  }
  Acts-IsTyped (joins h w) o = record {
    waiting = o.waiting;
    written = o.written;
    effects = tt;
    workers = o.workers;
  }
  Acts-IsTyped {b} (moves before after n sub_id s t a queue e m p) o = record {
    waiting = Passes-IsTyped J L n a b.writer b.queue queue p o.waiting;
    written = o.written;
    effects = o.effects;
    workers =
        All_replace J _ before after (subscriber n sub_id s) _ (λ x. Moves-IsTyped J L sub_id m)
          (at_workers b _ e o);
  }
  Acts-IsTyped {b} (publishes before after f queue e p) o = record {
    waiting =
        Offers-IsTyped J L f b.writer b.queue queue
          (All_at J (IsTypedWorker J) before after (answering f) (at_workers b _ e o)) p o.waiting;
    written = o.written;
    effects = o.effects;
    workers = All_replace J _ before after (answering f) published (λ x. tt) (at_workers b _ e o);
  }
  Acts-IsTyped {b} (writes m queue w q) o =
      let (p, ps) = subst (All (IsFrame J)) q o.waiting in
      record {
        waiting = ps;
        written = All-append _ b.wire _ o.written (p, tt);
        effects = o.effects;
        workers = o.workers;
      }
  Acts-IsTyped {b} (fails m queue w q) o = record {
    waiting = (subst (All (IsFrame J)) q o.waiting).1;
    written = o.written;
    effects = o.effects;
    workers = o.workers;
  }
  Acts-IsTyped (closes w) o = record {
    waiting = tt;
    written = o.written;
    effects = o.effects;
    workers = o.workers;
  }
  Acts-IsTyped (finishes w q e d) o = record {
    waiting = o.waiting;
    written = o.written;
    effects = o.effects;
    workers = o.workers;
  }

  -- Whatever a client sends and its server answers, every frame on the socket or in the channel that
  -- is not of a subscription task is a NOTICE or an OK as NIP-01 has it, and the frame that a task
  -- ends with on an error is the CLOSED of its own subscription.
  pub Reach-IsTyped : {c : Live J} → Reach J c → IsTyped J c
  Reach-IsTyped start = record { waiting = tt; written = tt; effects = tt; workers = tt }
  Reach-IsTyped (world r s) = World-IsTyped s (Reach-IsTyped r)
  Reach-IsTyped (acts r s) = Acts-IsTyped s (Reach-IsTyped r)
