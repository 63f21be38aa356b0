-- ===== src/Shim/Live/Frames.antt =====
-- A frame of the client in a running connection (crates/outlay-shim/src/conn.rs): what it does to the
-- map and the effects that it sets under way agree with the tasks that are there.
use outlay.Base.{
  ℕ, ◌<◌, false, true, Option, some, none, List, [], ◌∷◌, ◌≡◌, ◌⊎◌, refl, inl, inr, arith, All,
  All-append,
}
use outlay.Base.Text.{Text}
use outlay.Json.{Json}
use outlay.Shim.Conn.{
  Subs, remove, Conn, Inbound, text, closed, failed, ignored, spawn_subscribe, on_msg, cancel_all,
  cancel_some,
}
use outlay.Shim.Conn.Subs.{live-remove, remove-Below}
use outlay.Shim.Conn.Tasks.{
  spawns, cancels, total, total-append, total-cancel_all, total-cancel_some, IsValid,
  on_msg-IsValid, on_msg_balance, on_msg_fresh,
}
use outlay.Shim.Conn.Writer.{Writer}
use outlay.Shim.Live.{Worker, subscriber, calling, answering, published, doing, receive}
use outlay.Shim.Live.Invariant.{Placed, Placing, IsCancel, Inv}
use outlay.Shim.Live.Names.{Names, Names-Below, Names-remove, Names-insert, live_above}
use outlay.Shim.Translate.{ClientMsg, req, close, publish, parse_client_frame}

module _ (J : Json) where
  Names-on_msg :
      (c : Conn) (m : Option (ClientMsg J)) (n : ℕ) (sub_id : Text)
      → n < c.next
      → Names n sub_id c.subs
      → (n < (on_msg J c m).0.next) × Names n sub_id (on_msg J c m).0.subs
  unfolding on_msg
  Names-on_msg c (some (req k filters)) n sub_id lt h = (
    omega arith,
    Names-insert n c.next sub_id k (remove k c.subs).1 (λ e. absurd (omega (arith, e, lt)))
        (Names-remove n sub_id k c.subs h),
  )
  Names-on_msg c (some (close k)) n sub_id lt h = (lt, Names-remove n sub_id k c.subs h)
  Names-on_msg c (some (publish event)) n sub_id lt h = (lt, h)
  Names-on_msg c none n sub_id lt h = (lt, h)

  Placed-on_msg :
      (c : Conn) (m : Option (ClientMsg J)) (ws : List (Worker J))
      → All (Placed J c.next c.subs) ws
      → All (Placed J (on_msg J c m).0.next (on_msg J c m).0.subs) ws
  Placed-on_msg c m [] h = tt
  Placed-on_msg c m (subscriber n sub_id s ∷ ws) (p, h) =
      (Names-on_msg c m n sub_id p.0 p.1, Placed-on_msg c m ws h)
  Placed-on_msg c m (calling event ∷ ws) (p, h) = (tt, Placed-on_msg c m ws h)
  Placed-on_msg c m (answering frame ∷ ws) (p, h) = (tt, Placed-on_msg c m ws h)
  Placed-on_msg c m (published ∷ ws) (p, h) = (tt, Placed-on_msg c m ws h)

  Placing-cancel_some :
      (next : ℕ) (m : Subs) (o : Option ℕ) → All (Placing J next m) (cancel_some J o)
  Placing-cancel_some next m none = tt
  Placing-cancel_some next m (some n) = (tt, tt)

  Placing-on_msg :
      (c : Conn) (m : Option (ClientMsg J))
      → IsValid J c
      → All (Placing J (on_msg J c m).0.next (on_msg J c m).0.subs) (on_msg J c m).1
  unfolding on_msg
  Placing-on_msg c (some (req k filters)) v =
      All-append _ (cancel_some J (remove k c.subs).0) _ (Placing-cancel_some _ _ _) (
        (
          omega arith,
          Names-insert c.next c.next k k (remove k c.subs).1 (λ e. refl)
              (Names-Below c.next k _ (remove-Below c.next k c.subs v.below)),
        ),
        tt,
      )
  Placing-on_msg c (some (close k)) v = Placing-cancel_some _ _ _
  Placing-on_msg c (some (publish event)) v = (tt, tt)
  Placing-on_msg c none v = (tt, tt)

  -- The task that is replaced is not the new one.
  on_msg_apart :
      (n : ℕ) (c : Conn) (m : Option (ClientMsg J))
      → IsValid J c
      → (total J (cancels J n) (on_msg J c m).1 ≡ 0) ⊎ (total J (spawns J n) (on_msg J c m).1 ≡ 0)
  unfolding on_msg
  on_msg_apart n c (some (req k filters)) v = ground (
    arith,
    total-append J (cancels J n) (cancel_some J (remove k c.subs).0)
        (spawn_subscribe c.next k filters ∷ []),
    total-append J (spawns J n) (cancel_some J (remove k c.subs).0)
        (spawn_subscribe c.next k filters ∷ []),
    total-cancel_some J n (remove k c.subs).0,
    live-remove c.next k c.subs,
    live_above c.next c.subs v.below,
  )
  on_msg_apart n c (some (close k)) v = inr (total-cancel_some J n _).1
  on_msg_apart n c (some (publish event)) v = inl refl
  on_msg_apart n c none v = inl refl

  on_msg-Inv :
      (c : Conn) (m : Option (ClientMsg J)) (ws : List (Worker J)) (p : Writer)
      → Inv J c (doing [] false) ws p
      → Inv J (on_msg J c m).0 (doing (on_msg J c m).1 false) ws p
  on_msg-Inv c m ws p o = record {
    valid = on_msg-IsValid J c m o.valid;
    once = λ n. ground (arith, on_msg_fresh J n c m, o.once n, o.fresh n);
    fresh = λ n h. ground (arith, on_msg_fresh J n c m, o.fresh n);
    balance = λ n. omega (arith, o.balance n, on_msg_balance J n c m o.valid);
    apart = λ n. on_msg_apart n c m o.valid;
    placed = Placed-on_msg c m ws o.placed;
    placing = Placing-on_msg c m o.valid;
    sound = o.sound;
    joined = λ h. cc;
    fits = tt;
  }

  Placing-cancel_all : (next : ℕ) (m subs : Subs) → All (Placing J next m) (cancel_all J subs)
  unfolding cancel_all
  Placing-cancel_all next m [] = tt
  Placing-cancel_all next m ((k, n) ∷ subs) = (tt, Placing-cancel_all next m subs)

  Placed-nil :
      (next : ℕ) (m : Subs) (ws : List (Worker J))
      → All (Placed J next m) ws
      → All (Placed J next []) ws
  Placed-nil next m [] h = tt
  Placed-nil next m (subscriber n sub_id s ∷ ws) (p, h) = ((p.0, tt), Placed-nil next m ws h)
  Placed-nil next m (calling event ∷ ws) (p, h) = (tt, Placed-nil next m ws h)
  Placed-nil next m (answering frame ∷ ws) (p, h) = (tt, Placed-nil next m ws h)
  Placed-nil next m (published ∷ ws) (p, h) = (tt, Placed-nil next m ws h)

  Fits-cancel_all : (subs : Subs) → All (IsCancel J) (cancel_all J subs)
  unfolding cancel_all
  Fits-cancel_all [] = tt
  Fits-cancel_all ((k, n) ∷ subs) = (tt, Fits-cancel_all subs)

  cancel_all-Inv :
      (c : Conn) (ws : List (Worker J)) (p : Writer)
      → Inv J c (doing [] false) ws p
      → Inv J c (doing (cancel_all J c.subs) true) ws p
  cancel_all-Inv c ws p o = record {
    valid = o.valid;
    once = λ n. omega (arith, o.once n, total-cancel_all J n c.subs);
    fresh = λ n h. omega (arith, o.fresh n h, total-cancel_all J n c.subs);
    balance = λ n. omega (arith, o.balance n, total-cancel_all J n c.subs);
    apart = λ n. inr (total-cancel_all J n c.subs).1;
    placed = Placed-nil c.next c.subs ws o.placed;
    placing = Placing-cancel_all c.next [] c.subs;
    sound = o.sound;
    joined = λ h. cc;
    fits = Fits-cancel_all c.subs;
  }

  pub receive-Inv :
      (f : Option Inbound) (c : Conn) (ws : List (Worker J)) (p : Writer)
      → Inv J c (doing [] false) ws p
      → Inv J (receive J f c).0 (receive J f c).1 ws p
  unfolding receive
  receive-Inv (some (text t)) c ws p o = on_msg-Inv c (parse_client_frame J t) ws p o
  receive-Inv (some ignored) c ws p o = o
  receive-Inv (some closed) c ws p o = cancel_all-Inv c ws p o
  receive-Inv (some failed) c ws p o = cancel_all-Inv c ws p o
  receive-Inv none c ws p o = cancel_all-Inv c ws p o
