-- ===== src/Shim/Live/Heeding.antt =====
-- Every step of a running connection (crates/outlay-shim/src/conn.rs) keeps what its tasks make of what
-- they hear.
use outlay.Base.{
  ℕ, ◌≤◌, Bool, List, [], ◌∷◌, ◌++◌, ◌≡◌, ◌≢◌, refl, sym, ap, ◌∙◌, inl, inr, arith, All, All-append,
  Bool-cases, eqb, eqb_iff, append-nil, if◌then◌else◌,
}
use mathlib.Core.Path.{subst, fun_ext}
use outlay.Base.Text.{Text}
use outlay.Json.{Json}
use outlay.Shim.Conn.{Effect, cancel, spawn_subscribe, spawn_publish, send}
use outlay.Shim.Conn.Cancel.{Task}
use outlay.Shim.Conn.Loop.{sent_by}
use outlay.Shim.Live.{
  Worker, subscriber, calling, answering, published, doing, Live, World, frame, hears, answers,
  Acts, does, leaves, joins, moves, publishes, writes, fails, closes, finishes, Reach, start, world,
  acts,
}
use outlay.Shim.Live.Heard.{
  chunk_of, heard, Heeds, HeedsWorker, Hears-Heeds, Moves-Heeds, All-HeedsWorker, All_split,
  StartsNew, carried-HeedsWorker,
}
use outlay.Shim.Live.Outputs.{others}
use outlay.Shim.Live.Steps.{at, Reach-Inv}
use outlay.Shim.Live.Workers.{numbered, numbered-carried, sum, sum-append, sum-replace}

module _ (J : Json) where
  -- Every task makes of what it hears what it should, and nothing was brought to a task that is not
  -- there.
  pub record Heed {c : Live J} (r : Reach J c) : Type 0 where
    pub heeding : All (HeedsWorker J (λ n. heard J n r)) c.workers
    pub silent : (n : ℕ) → sum J (numbered J n) c.workers ≡ 0 → heard J n r ≡ []

  -- What is brought to one task is not brought to another.
  brought_other : (j n : ℕ) (cs : List Text) → j ≢ n → (if eqb n j then cs else []) ≡ []
  brought_other j n cs ne = elim (Bool-cases (eqb n j)) [
    | inl e ↦ absurd (ne (sym ((eqb_iff n j).0 e)))
    | inr e ↦ rw e
  ]

  -- The worker that makes a step is alone with its number.
  stepped :
      (hs gs : ℕ → List Text) (before after : List (Worker J)) (n : ℕ) (sub_id : Text) (s t : Task)
      → sum J (numbered J n) (before ++ subscriber n sub_id s ∷ after) ≤ 1
      → ((j : ℕ) → j ≢ n → gs j ≡ hs j)
      → (Heeds J (hs n) sub_id s.phase (sent_by s.outputs)
          → Heeds J (gs n) sub_id t.phase (sent_by t.outputs))
      → All (HeedsWorker J hs) (before ++ subscriber n sub_id s ∷ after)
      → All (HeedsWorker J gs) (before ++ subscriber n sub_id t ∷ after)
  stepped hs gs before after n sub_id s t once same step h =
      let (p, q) = others J n before after sub_id s once in
      let (a, o, b) = All_split J _ before after (subscriber n sub_id s) h in
      All-append _ before _ (All-HeedsWorker J hs gs n before same p a)
        (step o, All-HeedsWorker J hs gs n after same q b)

  swapped :
      (hs gs : ℕ → List Text) (before after : List (Worker J)) (v w : Worker J)
      → ((j : ℕ) → gs j ≡ hs j)
      → (HeedsWorker J hs v → HeedsWorker J gs w)
      → All (HeedsWorker J hs) (before ++ v ∷ after)
      → All (HeedsWorker J gs) (before ++ w ∷ after)
  swapped hs gs before after v w same step h =
      let (a, o, b) = All_split J _ before after v h in
      let k : gs ≡ hs = fun_ext same in
      All-append _ before _ (subst (λ x. All (HeedsWorker J x) before) (sym k) a)
        (step o, subst (λ x. All (HeedsWorker J x) after) (sym k) b)

  once_at :
      {b : Live J} (r : Reach J b) (n : ℕ) (ws : List (Worker J))
      → b.workers ≡ ws
      → sum J (numbered J n) ws ≤ 1
  once_at r n ws e = omega (arith, (Reach-Inv J r).once n, ap (sum J (numbered J n)) e)

  World-Heed : {b c : Live J} (r : Reach J b) (s : World J b c) → Heed r → Heed (world r s)
  World-Heed {b} r (frame f e) o = record {
    heeding =
        subst (λ x. All (HeedsWorker J x) b.workers) (fun_ext (λ n. sym (append-nil (heard J n r))))
          o.heeding;
    silent = λ n z. append-nil (heard J n r) ∙ o.silent n z;
  }
  World-Heed {b} r (hears before after n sub_id s t e h) o = record {
    heeding =
        stepped (λ j. heard J j r) (λ j. heard J j (world r (hears before after n sub_id s t e h)))
          before after n sub_id s t (once_at r n _ e)
          (λ j ne.
            ap (◌++◌ (heard J j r)) (brought_other j n (chunk_of J h) ne)
            ∙ append-nil (heard J j r))
          (λ p. rw ((eqb_iff n n).1 refl) (Hears-Heeds J (heard J n r) sub_id h p))
          (subst (All (HeedsWorker J (λ j. heard J j r))) e o.heeding);
    silent = λ j z. elim (Bool-cases (eqb n j)) [
      | inl k ↦ absurd (
          omega (
            arith,
            rw k at (
                sum-replace J (numbered J j) before after (subscriber n sub_id s)
                  (subscriber n sub_id t)),
            rw k at (there j before after n sub_id t),
            z,
          ))
      | inr k ↦ rw k (
          append-nil (heard J j r)
          ∙ o.silent j (
              omega (
                arith,
                z,
                ap (sum J (numbered J j)) e,
                sum-replace J (numbered J j) before after (subscriber n sub_id s)
                    (subscriber n sub_id t),
              )))
    ];
  }
    where
      there :
          (j : ℕ) (before after : List (Worker J)) (n : ℕ) (sub_id : Text) (t : Task)
          → numbered J j (subscriber n sub_id t)
            ≤ sum J (numbered J j) (before ++ subscriber n sub_id t ∷ after)
      there j before after n sub_id t =
          omega (arith, sum-append J (numbered J j) before (subscriber n sub_id t ∷ after))
  World-Heed {b} r (answers before after event a e) o = record {
    heeding =
        swapped (λ j. heard J j r) _ before after (calling event) _ (λ j. append-nil (heard J j r))
          (λ p. tt) (subst (All (HeedsWorker J (λ j. heard J j r))) e o.heeding);
    silent = λ j z.
        append-nil (heard J j r)
        ∙ o.silent j (
            omega (
              arith,
              z,
              ap (sum J (numbered J j)) e,
              sum-replace J (numbered J j) before after (calling event) (answering _),
            ));
  }

  -- Where nothing is brought, a step keeps the numbers of the workers and what they make of it.
  kept :
      {b c : Live J} (r : Reach J b) (s : Acts J b c)
      → All (HeedsWorker J (λ n. heard J n r)) c.workers
      → ((n : ℕ) → sum J (numbered J n) c.workers ≡ 0 → sum J (numbered J n) b.workers ≡ 0)
      → Heed r
      → Heed (acts r s)
  kept r s h z o = record { heeding = h; silent = λ n e. o.silent n (z n e) }

  starts_new :
      {b : Live J} (r : Reach J b) (e : Effect J) (es : List (Effect J)) (left : Bool)
      → b.loop ≡ doing (e ∷ es) left
      → Heed r
      → StartsNew J (λ n. heard J n r) e
  starts_new r (cancel n) es left h o = tt
  starts_new {b} r (spawn_subscribe n sub_id filters) es left h o =
      let i =
        at J b (doing (spawn_subscribe n sub_id filters ∷ es) left) b.workers h refl
          (Reach-Inv J r) in
      o.silent n (omega (arith, rw ((eqb_iff n n).1 refl) at (i.once n)))
  starts_new r (spawn_publish event) es left h o = tt
  starts_new r (send t) es left h o = tt

  Acts-Heed : {b c : Live J} (r : Reach J b) (s : Acts J b c) → Heed r → Heed (acts r s)
  Acts-Heed {b} r (does e es left queue h q) o =
      kept r _
        (carried-HeedsWorker J (λ n. heard J n r) e b.workers (starts_new r e es left h o)
          o.heeding)
        (λ n z. omega (arith, z, numbered-carried J n e b.workers)) o
  Acts-Heed r (leaves h) o = kept r _ o.heeding (λ n z. z) o
  Acts-Heed r (joins h w) o = kept r _ o.heeding (λ n z. z) o
  Acts-Heed {b} r (moves before after n sub_id s t a queue e m p) o =
      kept r _
        (stepped (λ j. heard J j r) (λ j. heard J j r) before after n sub_id s t (once_at r n _ e)
          (λ j ne. refl) (Moves-Heeds J (heard J n r) sub_id m)
          (subst (All (HeedsWorker J (λ j. heard J j r))) e o.heeding))
        (λ j z. omega (
          arith,
          z,
          ap (sum J (numbered J j)) e,
          sum-replace J (numbered J j) before after (subscriber n sub_id s) (subscriber n sub_id t),
        ))
        o
  Acts-Heed {b} r (publishes before after f queue e p) o =
      kept r _
        (swapped (λ j. heard J j r) (λ j. heard J j r) before after (answering f) published
          (λ j. refl) (λ x. tt) (subst (All (HeedsWorker J (λ j. heard J j r))) e o.heeding))
        (λ j z. omega (
          arith,
          z,
          ap (sum J (numbered J j)) e,
          sum-replace J (numbered J j) before after (answering f) published,
        ))
        o
  Acts-Heed r (writes m queue w q) o = kept r _ o.heeding (λ n z. z) o
  Acts-Heed r (fails m queue w q) o = kept r _ o.heeding (λ n z. z) o
  Acts-Heed r (closes w) o = kept r _ o.heeding (λ n z. z) o
  Acts-Heed r (finishes w q e d) o = kept r _ o.heeding (λ n z. z) o

  pub Reach-Heed : {c : Live J} (r : Reach J c) → Heed r
  Reach-Heed start = record { heeding = tt; silent = λ n z. refl }
  Reach-Heed (world r s) = World-Heed r s (Reach-Heed r)
  Reach-Heed (acts r s) = Acts-Heed r s (Reach-Heed r)
