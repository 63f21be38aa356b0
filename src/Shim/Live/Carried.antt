-- ===== src/Shim/Live/Carried.antt =====
-- The effects of a frame, carried out one at a time in a running connection
-- (crates/outlay-shim/src/conn.rs): a signal reaches the one task that has it coming, and a task that
-- is started is a new one.
use outlay.Base.{
  ℕ, ◌+◌, ◌≤◌, Bool, true, false, List, [], ◌∷◌, ◌≡◌, ◌⊎◌, sym, inl, inr, arith, All, All-append,
  Bool-cases, eqb, eqb_iff,
}
use mathlib.Core.Path.{subst}
use outlay.Json.{Json}
use outlay.Shim.Conn.{Subs, Conn, Effect, cancel, spawn_subscribe, spawn_publish, send}
use outlay.Shim.Conn.Cancel
use outlay.Shim.Conn.Cancel.{Task}
use outlay.Shim.Conn.Cancel.Signal.{init-IsSound, notify-IsSound}
use outlay.Shim.Conn.Subs.{live}
use outlay.Shim.Conn.Tasks.{spawns, cancels, total}
use outlay.Shim.Conn.Writer.{Writer}
use outlay.Shim.Live.{Worker, subscriber, calling, answering, published, doing, notify_if, carried}
use outlay.Shim.Live.Workers.{
  numbered, unsignalled, sum, All-map, numbered-carried, sum-unsignalled-notify_self,
  sum-unsignalled-notify_ne, sum-append, unsignalled-le,
}
use outlay.Shim.Live.Invariant.{IsSoundWorker, Placed, Placing, held, Fits, Inv}

module _ (J : Json) where
  notify_if-IsSound : (n : ℕ) (w : Worker J) → IsSoundWorker J w → IsSoundWorker J (notify_if J n w)
  unfolding notify_if
  notify_if-IsSound n (subscriber i sub_id s) o = elim (Bool-cases (eqb i n)) [
    | inl e ↦ rw e (notify-IsSound J sub_id o)
    | inr e ↦ rw e o
  ]
  notify_if-IsSound n (calling event) o = tt
  notify_if-IsSound n (answering reply) o = tt
  notify_if-IsSound n published o = tt

  notify_if-Placed :
      (next : ℕ) (m : Subs) (n : ℕ) (w : Worker J)
      → Placed J next m w
      → Placed J next m (notify_if J n w)
  unfolding notify_if
  notify_if-Placed next m n (subscriber i sub_id s) o = elim (Bool-cases (eqb i n)) [
    | inl e ↦ rw e o
    | inr e ↦ rw e o
  ]
  notify_if-Placed next m n (calling event) o = tt
  notify_if-Placed next m n (answering reply) o = tt
  notify_if-Placed next m n published o = tt

  carried-IsSound :
      (e : Effect J) (ws : List (Worker J))
      → All (IsSoundWorker J) ws
      → All (IsSoundWorker J) (carried J e ws)
  unfolding carried
  carried-IsSound (cancel n) ws o = All-map J _ _ _ ws (notify_if-IsSound n) o
  carried-IsSound (spawn_subscribe n sub_id filters) ws o =
      All-append _ ws _ o (init-IsSound J sub_id, tt)
  carried-IsSound (spawn_publish event) ws o = All-append _ ws _ o (tt, tt)
  carried-IsSound (send t) ws o = o

  carried-Placed :
      (next : ℕ) (m : Subs) (e : Effect J) (ws : List (Worker J))
      → Placing J next m e
      → All (Placed J next m) ws
      → All (Placed J next m) (carried J e ws)
  unfolding carried
  carried-Placed next m (cancel n) ws q o = All-map J _ _ _ ws (notify_if-Placed next m n) o
  carried-Placed next m (spawn_subscribe n sub_id filters) ws q o = All-append _ ws _ o (q, tt)
  carried-Placed next m (spawn_publish event) ws q o = All-append _ ws _ o (tt, tt)
  carried-Placed next m (send t) ws q o = o

  -- The signal of an effect reaches the one task that has it coming.
  carried_balance :
      (j : ℕ) (e : Effect J) (es : List (Effect J)) (ws : List (Worker J)) (rest : ℕ)
      → sum J (numbered J j) ws + total J (spawns J j) (e ∷ es) ≤ 1
      → (total J (cancels J j) (e ∷ es) ≡ 0) ⊎ (total J (spawns J j) (e ∷ es) ≡ 0)
      → sum J (unsignalled J j) ws + total J (spawns J j) (e ∷ es)
        ≡ total J (cancels J j) (e ∷ es) + rest
      → sum J (unsignalled J j) (carried J e ws) + total J (spawns J j) es
        ≡ total J (cancels J j) es + rest
  carried_balance j (cancel n) es ws rest o a b = elim (Bool-cases (eqb n j)) [
    | inl e ↦
        let same : n ≡ j = (eqb_iff n j).0 e in
        ground (
          arith,
          unsignalled-le J j ws,
          subst (λ x. sum J (unsignalled J j) (carried J (cancel x) ws) ≡ 0) (sym same)
              (sum-unsignalled-notify_self J j ws),
        )
    | inr e ↦
        ground (arith, sum-unsignalled-notify_ne J n j ws (λ h. cc (e, (eqb_iff n j).1 (sym h))))
  ]
  carried_balance j (spawn_subscribe n sub_id filters) es ws rest o a b =
      unfold carried in
      omega (
        arith,
        b,
        sum-append J (unsignalled J j) ws (subscriber n sub_id (Cancel.init J sub_id) ∷ []),
      )
  carried_balance j (spawn_publish event) es ws rest o a b =
      unfold carried in omega (arith, b, sum-append J (unsignalled J j) ws (calling event ∷ []))
  carried_balance j (send t) es ws rest o a b = unfold carried in omega (arith, b)

  Fits-tail :
      (e : Effect J) (es : List (Effect J)) (left : Bool)
      → Fits J (doing (e ∷ es) left)
      → Fits J (doing es left)
  Fits-tail e es true (p, h) = h
  Fits-tail e es false h = tt

  pub carried-Inv :
      (c : Conn) (e : Effect J) (es : List (Effect J)) (left : Bool) (ws : List (Worker J))
      (p : Writer)
      → Inv J c (doing (e ∷ es) left) ws p
      → Inv J c (doing es left) (carried J e ws) p
  carried-Inv c e es left ws p o = record {
    valid = o.valid;
    once = λ n. omega (arith, o.once n, numbered-carried J n e ws);
    fresh = λ n h. omega (arith, o.fresh n h, numbered-carried J n e ws);
    balance = λ n.
        carried_balance n e es ws (live n (held J (doing es left) c.subs)) (o.once n) (o.apart n)
          (o.balance n);
    apart =
        λ n. elim (o.apart n) [ inl h ↦ inl (omega (arith, h)) | inr h ↦ inr (omega (arith, h)) ];
    placed = carried-Placed c.next (held J (doing es left) c.subs) e ws o.placing.0 o.placed;
    placing = o.placing.1;
    sound = carried-IsSound e ws o.sound;
    joined = λ h. cc;
    fits = Fits-tail e es left o.fits;
  }
