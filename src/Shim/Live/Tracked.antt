-- ===== src/Shim/Live/Tracked.antt =====
-- The tasks of a running connection (crates/outlay-shim/src/conn.rs) and the map `subs`: which tasks
-- have had their cancel signal, at every moment of a run.
use outlay.Base.{
  ℕ, ◌+◌, ◌≤◌, true, false, some, List, [], ◌∷◌, ◌≡◌, refl, arith, All, eqb_iff, ◌⊎◌, inl, inr,
  Bool,
}
use outlay.Base.Text.{Text}
use outlay.Json.{Json}
use outlay.Shim.Conn.{Subs, remove}
use outlay.Shim.Conn.Subs.{live, Distinct, live-remove}
use outlay.Shim.Live.{
  Worker, subscriber, calling, answering, published, Loop, doing, joining, over, Live, Reach,
}
use outlay.Shim.Live.Steps.{at, Reach-Inv}
use outlay.Shim.Live.Invariant.{Placed, InvOf}
use outlay.Shim.Live.Names.{remove_live}
use outlay.Shim.Live.Workers.{numbered, unsignalled, unless, sum, unsignalled-le}

module _ (J : Json) where
  -- A task that has had no signal is the one that the map has for its id.
  abbrev pub Mapped : Subs → Worker J → Type 0
  Mapped m (subscriber n sub_id s) = s.fired ≡ false → (remove sub_id m).0 ≡ some n
  Mapped m w = Unit

  abbrev pub IsSignalled : Worker J → Type 0
  IsSignalled (subscriber n sub_id s) = s.fired ≡ true
  IsSignalled w = Unit

  All-Mapped :
      (m : Subs) (next : ℕ) (ws : List (Worker J))
      → Distinct m
      → All (Placed J next m) ws
      → ((n : ℕ) → sum J (unsignalled J n) ws ≤ live n m)
      → All (Mapped m) ws
  All-Mapped m next [] d p h = tt
  All-Mapped m next (subscriber n sub_id s ∷ ws) d (p, ps) h = (
    λ e. remove_live n sub_id m d p.1 (omega (arith, h n, there e)),
    All-Mapped m next ws d ps (λ j. omega (arith, h j)),
  )
    where
      there : s.fired ≡ false → 1 ≤ unsignalled J n (subscriber n sub_id s)
      there e = rw (e, (eqb_iff n n).1 refl) (omega arith)
  All-Mapped m next (calling event ∷ ws) d (p, ps) h =
      (tt, All-Mapped m next ws d ps (λ j. omega (arith, h j)))
  All-Mapped m next (answering reply ∷ ws) d (p, ps) h =
      (tt, All-Mapped m next ws d ps (λ j. omega (arith, h j)))
  All-Mapped m next (published ∷ ws) d (p, ps) h =
      (tt, All-Mapped m next ws d ps (λ j. omega (arith, h j)))

  All-IsSignalled :
      (ws : List (Worker J)) → ((n : ℕ) → sum J (unsignalled J n) ws ≡ 0) → All IsSignalled ws
  All-IsSignalled [] h = tt
  All-IsSignalled (subscriber n sub_id s ∷ ws) h = (
    signalled s.fired (rw ((eqb_iff n n).1 refl) at (h n)),
    All-IsSignalled ws (λ j. omega (arith, h j)),
  )
    where
      signalled : (b : Bool) → unless J b 1 + sum J (unsignalled J n) ws ≡ 0 → b ≡ true
      signalled true k = refl
      signalled false k = absurd (omega (arith, k))
  All-IsSignalled (calling event ∷ ws) h = (tt, All-IsSignalled ws (λ j. omega (arith, h j)))
  All-IsSignalled (answering reply ∷ ws) h = (tt, All-IsSignalled ws (λ j. omega (arith, h j)))
  All-IsSignalled (published ∷ ws) h = (tt, All-IsSignalled ws (λ j. omega (arith, h j)))

  -- The tasks agree with the map: no number twice, every task without a signal stands under its id,
  -- and every entry has its task, without a signal.
  pub record Agrees (m : Subs) (ws : List (Worker J)) : Type 0 where
    pub once : (n : ℕ) → sum J (numbered J n) ws ≤ 1
    pub mapped : All (Mapped m) ws
    pub there :
        (n : ℕ) (sub_id : Text) → (remove sub_id m).0 ≡ some n → sum J (unsignalled J n) ws ≡ 1

  one_live : (n : ℕ) (sub_id : Text) (m : Subs) → (remove sub_id m).0 ≡ some n → 1 ≤ live n m
  one_live n sub_id m h = omega (arith, rw (h, (eqb_iff n n).1 refl) at (live-remove n sub_id m))

  pub IsSignalled-left :
      (c : Live J) (l : Loop J)
      → c.loop ≡ l
      → (l ≡ joining) ⊎ (l ≡ over)
      → InvOf J c
      → All IsSignalled c.workers
  IsSignalled-left c (doing es left) e (inl h) o = cc
  IsSignalled-left c (doing es left) e (inr h) o = cc
  IsSignalled-left c joining e h o =
      let i = at J c joining c.workers e refl o in
      All-IsSignalled c.workers (λ n. omega (arith, i.balance n))
  IsSignalled-left c over e h o =
      let i = at J c over c.workers e refl o in
      All-IsSignalled c.workers (λ n. omega (arith, i.balance n))

  -- However the frames of a client, its tasks and their server interleave: between two frames, the
  -- tasks that have had no cancel signal are exactly those in the map, each under its own
  -- subscription id and so one for each id; and when the loop has been left and cleaned up, every
  -- task that was ever started has had its signal.
  pub Reach-Agrees :
      {c : Live J}
      → Reach J c
      → (c.loop ≡ doing [] false → Agrees c.conn.subs c.workers)
        × ((c.loop ≡ joining) ⊎ (c.loop ≡ over) → All IsSignalled c.workers)
  Reach-Agrees {c} r =
      let o = Reach-Inv J r in
      (
        λ e.
            let i = at J c _ c.workers e refl o in
            record {
              once = λ n. omega (arith, i.once n);
              mapped =
                  All-Mapped c.conn.subs c.conn.next c.workers i.valid.distinct i.placed
                    (λ n. omega (arith, i.balance n));
              there = λ n sub_id h. omega (
                arith,
                i.balance n,
                i.once n,
                unsignalled-le J n c.workers,
                one_live n sub_id c.conn.subs h,
              );
            },
        λ h. IsSignalled-left c c.loop refl h o,
      )
