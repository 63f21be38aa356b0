-- ===== src/Shim/Live/Invariant.antt =====
-- The tasks of a running connection (crates/outlay-shim/src/conn.rs), the effects that are under way
-- and the map `subs`: what every step keeps.
use outlay.Base.{ℕ, ◌+◌, ◌≤◌, ◌<◌, true, false, List, [], ◌∷◌, ◌++◌, ◌≡◌, ◌⊎◌, refl, arith, All}
use outlay.Base.Text.{Text}
use outlay.Json.{Json}
use outlay.Shim.Conn.{Subs, Conn, Effect, cancel, spawn_subscribe}
use outlay.Shim.Conn.Cancel.{Task}
use outlay.Shim.Conn.Cancel.Signal.{IsSound}
use outlay.Shim.Conn.Subs.{live}
use outlay.Shim.Conn.Tasks.{spawns, cancels, total, IsValid}
use outlay.Shim.Conn.Writer.{Writer, is_gone}
use outlay.Shim.Live.{Worker, subscriber, Loop, doing, joining, over, Live}
use outlay.Shim.Live.Names.{Names}
use outlay.Shim.Live.Workers.{numbered, unsignalled, sum, sum-replace, All_replace}

module _ (J : Json) where
  -- The effects that are under way, and the map while the loop lasts.
  abbrev pub pending : Loop J → List (Effect J)
  pending (doing es left) = es
  pending joining = []
  pending over = []

  abbrev pub held : Loop J → Subs → Subs
  held (doing es false) m = m
  held (doing es true) m = []
  held joining m = []
  held over m = []

  -- A task has a number that was given out, and its own id in the map.
  abbrev pub Placed : ℕ → Subs → Worker J → Type 0
  Placed next m (subscriber n sub_id s) = (n < next) × Names n sub_id m
  Placed next m w = Unit

  abbrev pub Placing : ℕ → Subs → Effect J → Type 0
  Placing next m (spawn_subscribe n sub_id filters) = (n < next) × Names n sub_id m
  Placing next m e = Unit

  abbrev pub IsSoundWorker : Worker J → Type 0
  IsSoundWorker (subscriber n sub_id s) = IsSound J sub_id s
  IsSoundWorker w = Unit

  -- Once the loop has been left only signals are under way.
  abbrev pub IsCancel : Effect J → Type 0
  IsCancel (cancel n) = Unit
  IsCancel e = ⊥

  abbrev pub Fits : Loop J → Type 0
  Fits (doing es true) = All IsCancel es
  Fits l = Unit

  pub record Inv (c : Conn) (l : Loop J) (ws : List (Worker J)) (p : Writer) : Type 0 where
    pub valid : IsValid J c
    -- a number is given out once
    pub once : (n : ℕ) → sum J (numbered J n) ws + total J (spawns J n) (pending l) ≤ 1
    pub fresh :
        (n : ℕ) → c.next ≤ n → sum J (numbered J n) ws + total J (spawns J n) (pending l) ≡ 0
    -- a task without a signal stands in the map, or its signal is under way
    pub balance :
        (n : ℕ)
        → sum J (unsignalled J n) ws + total J (spawns J n) (pending l)
          ≡ total J (cancels J n) (pending l) + live n (held l c.subs)
    pub apart :
        (n : ℕ) → (total J (cancels J n) (pending l) ≡ 0) ⊎ (total J (spawns J n) (pending l) ≡ 0)
    pub placed : All (Placed c.next (held l c.subs)) ws
    pub placing : All (Placing c.next (held l c.subs)) (pending l)
    pub sound : All IsSoundWorker ws
    pub joined : l ≡ over → is_gone p ≡ true
    pub fits : Fits l

  abbrev pub InvOf : Live J → Type 0
  InvOf c = Inv c.conn c.loop c.workers c.writer

  -- A step of one worker that keeps its number, its id and whether it has the signal.
  pub record Alike (v w : Worker J) : Type 0 where
    pub number : (n : ℕ) → numbered J n w ≡ numbered J n v
    pub signal : (n : ℕ) → unsignalled J n w ≡ unsignalled J n v
    pub place : (next : ℕ) (m : Subs) → Placed next m v → Placed next m w
    pub soundness : IsSoundWorker v → IsSoundWorker w

  pub replaced-Inv :
      (c : Conn) (l : Loop J) (before after : List (Worker J)) (v w : Worker J) (p : Writer)
      → Alike v w
      → Inv c l (before ++ v ∷ after) p
      → Inv c l (before ++ w ∷ after) p
  replaced-Inv c l before after v w p a o = record {
    valid = o.valid;
    once = λ n. omega (arith, o.once n, a.number n, sum-replace J (numbered J n) before after v w);
    fresh = λ n h.
        omega (arith, o.fresh n h, a.number n, sum-replace J (numbered J n) before after v w);
    balance = λ n.
        omega (arith, o.balance n, a.signal n, sum-replace J (unsignalled J n) before after v w);
    apart = o.apart;
    placed = All_replace J _ before after v w (a.place c.next (held l c.subs)) o.placed;
    placing = o.placing;
    sound = All_replace J _ before after v w a.soundness o.sound;
    joined = o.joined;
    fits = o.fits;
  }

  pub task_Alike :
      (n : ℕ) (sub_id : Text) (s t : Task)
      → t.fired ≡ s.fired
      → (IsSound J sub_id s → IsSound J sub_id t)
      → Alike (subscriber n sub_id s) (subscriber n sub_id t)
  task_Alike n sub_id s t e h = record {
    number = λ j. refl;
    signal = λ j. rw e;
    place = λ next m p. p;
    soundness = h;
  }

  pub writer-Inv :
      (c : Conn) (l : Loop J) (ws : List (Worker J)) (p q : Writer)
      → (l ≡ over → is_gone q ≡ true)
      → Inv c l ws p
      → Inv c l ws q
  writer-Inv c l ws p q h o = record {
    valid = o.valid;
    once = o.once;
    fresh = o.fresh;
    balance = o.balance;
    apart = o.apart;
    placed = o.placed;
    placing = o.placing;
    sound = o.sound;
    joined = h;
    fits = o.fits;
  }
