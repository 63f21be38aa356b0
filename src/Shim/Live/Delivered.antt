-- ===== src/Shim/Live/Delivered.antt =====
-- What the client of a running connection (crates/outlay-shim/src/conn.rs) has on its socket of each of
-- its subscription tasks.
use outlay.Base.{
  ℕ, true, some, List, [], ◌∷◌, ◌++◌, ◌≡◌, refl, sym, ap, ◌∙◌, arith, All, eqb, if◌then◌else◌,
  append_assoc, append-nil,
}
use mathlib.Core.Path.{subst}
use outlay.Base.Text.{Text}
use outlay.Json.{Json}
use outlay.Shim.Conn.Cancel.{Task, returned, Asks, Moves}
use outlay.Shim.Conn.Cancel.Signal.{Runs, IsSound-Runs}
use outlay.Shim.Conn.Loop.{sent_by}
use outlay.Shim.Conn.Writer.{running, finished}
use outlay.Shim.Live.{
  Frames, Worker, subscriber, calling, answering, published, Loop, doing, Live, Passes, IsDead,
  World, frame, hears, answers, Acts, does, leaves, joins, moves, publishes, writes, fails, closes,
  finishes, Reach, start, world, acts,
}
use outlay.Shim.Live.Invariant.{InvOf, IsSoundWorker}
use outlay.Shim.Live.Said.{
  from, from_write, from-Sent, from-Offers, said, said_same, said_one, said-carried,
}
use outlay.Shim.Live.Steps.{Reach-Inv}
use outlay.Shim.Live.Workers.{numbered, sum, All_at}
use outlay.Shim.Live.Outputs.{
  Hears-alive, Hears-outputs, Moves-alive, Moves-Says, others, said-moved, from-moved, more_of,
}

module _ (J : Json) where
  -- The loop has dropped its sender.
  abbrev pub Ended : Loop J → Type 0
  Ended (doing es left) = ⊥
  Ended l = Unit

  pub record Delivers (c : Live J) : Type 0 where
    pub flow : c.writer ≡ running → (n : ℕ) → from n c.wire ++ from n c.queue ≡ said J n c.workers
    pub prefix : (n : ℕ) → (rest : List Text) × (from n c.wire ++ rest ≡ said J n c.workers)
    pub whole : c.writer ≡ finished → (n : ℕ) → from n c.wire ≡ said J n c.workers
    pub alone : c.writer ≡ finished → All (IsDead J) c.workers × Ended c.loop

  -- A state in which nothing is said, sent or written.
  quiet :
      (b c : Live J)
      → Delivers b
      → ((n : ℕ) → said J n c.workers ≡ said J n b.workers)
      → ((n : ℕ) → from n c.queue ≡ from n b.queue)
      → c.wire ≡ b.wire
      → c.writer ≡ b.writer
      → (c.writer ≡ finished → All (IsDead J) c.workers × Ended c.loop)
      → Delivers c
  quiet b c o says sends w p alone = record {
    flow = λ r n.
        ap (λ x. from n x ++ from n c.queue) w
        ∙ ap (◌++◌ (from n b.wire)) (sends n)
        ∙ o.flow (sym p ∙ r) n
        ∙ sym (says n);
    prefix =
        λ n. let (rest, e) = o.prefix n in (rest, ap (λ x. from n x ++ rest) w ∙ e ∙ sym (says n));
    whole = λ r n. ap (from n) w ∙ o.whole (sym p ∙ r) n ∙ sym (says n);
    alone = alone;
  }

  World-Delivers : {b c : Live J} → World J b c → Delivers b → Delivers c
  World-Delivers {b} (frame f e) o =
      quiet b _ o (λ n. refl) (λ n. refl) refl refl λ r. absurd (subst Ended e (o.alone r).1)
  World-Delivers {b} (hears before after n sub_id s t e h) o =
      quiet b _ o
        (λ j.
          said_same J j before after (subscriber n sub_id s) (subscriber n sub_id t)
            (ap (λ x. if eqb n j then sent_by x else []) (Hears-outputs J sub_id h))
          ∙ ap (said J j) (sym e))
        (λ j. refl) refl refl
        λ r. absurd (
          Hears-alive J sub_id h (
            All_at J (IsDead J) before after (subscriber n sub_id s)
              (subst (All (IsDead J)) e (o.alone r).0)))
  World-Delivers {b} (answers before after event r e) o =
      quiet b _ o (λ j. said_same J j before after (calling event) _ refl ∙ ap (said J j) (sym e))
        (λ j. refl) refl refl
        λ f. absurd (
          All_at J (IsDead J) before after (calling event) (subst (All (IsDead J)) e (o.alone f).0))

  moves-Delivers :
      (b : Live J) (before after : List (Worker J)) (n : ℕ) (sub_id : Text) (s t : Task) (a : Asks)
      (queue : Frames)
      → b.workers ≡ before ++ subscriber n sub_id s ∷ after
      → Moves J sub_id s a t
      → Passes (some n) a b.writer b.queue queue
      → sum J (numbered J n) after ≡ 0
      → Delivers b
      → Delivers (record b { workers = before ++ subscriber n sub_id t ∷ after; queue = queue })
  moves-Delivers b before after n sub_id s t a queue e m p g o =
      let (more, h, k) = Moves-Says J sub_id m in
      let says : (j : ℕ)
          → said J j (before ++ subscriber n sub_id t ∷ after)
            ≡ said J j b.workers ++ more_of J n j more =
        λ j.
          said-moved J n j before after sub_id s t more h g
          ∙ ap (λ x. said J j x ++ more_of J n j more) (sym e) in
      let dead : b.writer ≡ finished → ⊥ = λ r. Moves-alive J sub_id m (
        All_at J (IsDead J) before after (subscriber n sub_id s)
          (subst (All (IsDead J)) e (o.alone r).0)) in
      record {
        flow = λ r j.
            ap (◌++◌ (from j b.wire)) (
              from-moved J n j a more b.queue queue k
                (subst (λ x. Passes (some n) a x b.queue queue) r p))
            ∙ sym (append_assoc (from j b.wire) (from j b.queue) (more_of J n j more))
            ∙ ap (λ x. x ++ more_of J n j more) (o.flow r j)
            ∙ sym (says j);
        prefix = λ j.
            let (rest, q) = o.prefix j in
            (
              rest ++ more_of J n j more,
              sym (append_assoc (from j b.wire) rest (more_of J n j more))
                  ∙ ap (λ x. x ++ more_of J n j more) q
                  ∙ sym (says j),
            );
        whole = λ r. absurd (dead r);
        alone = λ r. absurd (dead r);
      }

  Acts-Delivers : {b c : Live J} → Acts J b c → InvOf J b → Delivers b → Delivers c
  Acts-Delivers {b} (does e es left queue h s) i o =
      quiet b _ o (λ n. said-carried J n e b.workers)
        (λ n. from-Sent J n e b.writer b.queue queue s) refl refl
        λ r. absurd (subst Ended h (o.alone r).1)
  Acts-Delivers {b} (leaves h) i o =
      quiet b _ o (λ n. refl) (λ n. refl) refl refl λ r. ((o.alone r).0, tt)
  Acts-Delivers {b} (joins h w) i o =
      quiet b _ o (λ n. refl) (λ n. refl) refl refl λ r. ((o.alone r).0, tt)
  Acts-Delivers {b} (moves before after n sub_id s t a queue e m p) i o =
      moves-Delivers b before after n sub_id s t a queue e m p
        (others J n before after sub_id s (omega (arith, i.once n, ap (sum J (numbered J n)) e))).1
        o
  Acts-Delivers {b} (publishes before after reply queue e p) i o =
      quiet b _ o
        (λ j. said_same J j before after (answering reply) published refl ∙ ap (said J j) (sym e))
        (λ j. from-Offers j reply b.writer b.queue queue p) refl refl
        λ r. absurd (
          All_at J (IsDead J) before after (answering reply)
            (subst (All (IsDead J)) e (o.alone r).0))
  Acts-Delivers {b} (writes m queue w q) i o =
      let flow : (n : ℕ) → from n (b.wire ++ m ∷ []) ++ from n queue ≡ said J n b.workers = λ n.
        from_write n m b.wire queue ∙ ap (λ x. from n b.wire ++ from n x) (sym q) ∙ o.flow w n in
      record {
        flow = λ r. flow;
        prefix = λ n. (from n queue, flow n);
        whole = λ r. cc;
        alone = λ r. cc;
      }
  Acts-Delivers (fails m queue w q) i o = record {
    flow = λ r. cc;
    prefix = o.prefix;
    whole = λ r. cc;
    alone = λ r. cc;
  }
  Acts-Delivers (closes w) i o = record {
    flow = λ r. cc;
    prefix = o.prefix;
    whole = λ r. cc;
    alone = λ r. cc;
  }
  Acts-Delivers {b} (finishes w q e d) i o = record {
    flow = λ r. cc;
    prefix = o.prefix;
    whole = λ r n.
        sym (append-nil (from n b.wire)) ∙ ap (λ x. from n b.wire ++ from n x) (sym q) ∙ o.flow w n;
    alone = λ r. (d, subst Ended (sym e) tt);
  }

  pub Reach-Delivers : {c : Live J} → Reach J c → Delivers c
  Reach-Delivers start = record {
    flow = λ r n. refl;
    prefix = λ n. ([], refl);
    whole = λ r. cc;
    alone = λ r. cc;
  }
  Reach-Delivers (world r s) = World-Delivers s (Reach-Delivers r)
  Reach-Delivers (acts r s) = Acts-Delivers s (Reach-Inv J r) (Reach-Delivers r)

  -- The client's view of one task.
  pub record IsServed (c : Live J) (n : ℕ) (sub_id : Text) (s : Task) : Type 0 where
    pub prefix : (rest : List Text) × (from n c.wire ++ rest ≡ sent_by s.outputs)
    pub under_way : c.writer ≡ running → from n c.wire ++ from n c.queue ≡ sent_by s.outputs
    pub whole : c.writer ≡ finished → from n c.wire ≡ sent_by s.outputs
    pub runs : s.phase ≡ returned → Runs J sub_id s.outputs true

  -- However the frames of a client, its tasks and their server interleave, and for each of the tasks
  -- that run at the same time on one connection: what the client has on its socket of a task is at
  -- any time a first part of the frames that the task has output, in its order; while the writer
  -- runs, only those in the channel are missing; once the writer ends because every sender is done,
  -- none is. And a task that has returned has output what `subscribe_loop` does in some sequence of
  -- rounds.
  pub Reach-IsServed :
      {c : Live J} (before after : List (Worker J)) (n : ℕ) (sub_id : Text) (s : Task)
      → Reach J c
      → c.workers ≡ before ++ subscriber n sub_id s ∷ after
      → IsServed c n sub_id s
  Reach-IsServed {c} before after n sub_id s r e =
      let o = Reach-Delivers r in
      let i = Reach-Inv J r in
      let says =
        ap (said J n) e
        ∙ said_one J n before after sub_id s (
            others J n before after sub_id s
              (omega (arith, i.once n, ap (sum J (numbered J n)) e))) in
      record {
        prefix = ((o.prefix n).0, (o.prefix n).1 ∙ says);
        under_way = λ w. o.flow w n ∙ says;
        whole = λ w. o.whole w n ∙ says;
        runs = λ h.
            IsSound-Runs J sub_id s
              (All_at J (IsSoundWorker J) before after (subscriber n sub_id s)
                (subst (All (IsSoundWorker J)) e i.sound))
              h;
      }
