-- ===== src/Shim/Live/Workers.antt =====
-- The workers of a connection (crates/outlay-shim/src/conn.rs), counted: which tasks there are, and
-- which of them have had no cancel signal.
use outlay.Base.{
  ℕ, ◌+◌, ◌≤◌, Bool, true, false, List, [], ◌∷◌, ◌++◌, ◌≡◌, ◌≢◌, refl, sym, ◌∙◌, inl, inr, arith,
  map, All, Bool-cases, eqb, eqb_iff,
}
use outlay.Base.Text.{Text}
use outlay.Json.{Json}
use outlay.Shim.Conn.{Effect, cancel, spawn_subscribe, spawn_publish, send}
use outlay.Shim.Conn.Cancel
use outlay.Shim.Conn.Cancel.{Task, Hears, Moves, Asks}
use outlay.Shim.Conn.Subs.{one_if}
use outlay.Shim.Conn.Tasks.{spawns}
use outlay.Shim.Live.{Worker, subscriber, calling, answering, published, notify_if, carried}

module _ (J : Json) where
  abbrev pub numbered : ℕ → Worker J → ℕ
  numbered n (subscriber i sub_id s) = one_if (eqb i n)
  numbered n w = 0

  abbrev pub unless : Bool → ℕ → ℕ
  unless true n = 0
  unless false n = n

  -- Without a signal.
  abbrev pub unsignalled : ℕ → Worker J → ℕ
  unsignalled n (subscriber i sub_id s) = unless s.fired (one_if (eqb i n))
  unsignalled n w = 0

  abbrev pub sum : (Worker J → ℕ) → List (Worker J) → ℕ
  sum f [] = 0
  sum f (w ∷ ws) = f w + sum f ws

  pub sum-append :
      (f : Worker J → ℕ) (xs ys : List (Worker J)) → sum f (xs ++ ys) ≡ sum f xs + sum f ys
  sum-append f [] ys = omega arith
  sum-append f (x ∷ xs) ys = omega (arith, sum-append f xs ys)

  -- One worker makes a step.
  pub sum-replace :
      (f : Worker J → ℕ) (before after : List (Worker J)) (v w : Worker J)
      → sum f (before ++ w ∷ after) + f v ≡ sum f (before ++ v ∷ after) + f w
  sum-replace f [] after v w = omega arith
  sum-replace f (x ∷ before) after v w = omega (arith, sum-replace f before after v w)

  pub All_replace :
      (P : Worker J → Type 0) (before after : List (Worker J)) (v w : Worker J)
      → (P v → P w)
      → All P (before ++ v ∷ after)
      → All P (before ++ w ∷ after)
  All_replace P [] after v w h (p, a) = (h p, a)
  All_replace P (x ∷ before) after v w h (p, a) = (p, All_replace P before after v w h a)

  pub All_at :
      (P : Worker J → Type 0) (before after : List (Worker J)) (v : Worker J)
      → All P (before ++ v ∷ after)
      → P v
  All_at P [] after v (p, a) = p
  All_at P (x ∷ before) after v (p, a) = All_at P before after v a

  pub All-map :
      (P Q : Worker J → Type 0) (g : Worker J → Worker J) (ws : List (Worker J))
      → ((w : Worker J) → P w → Q (g w))
      → All P ws
      → All Q (map g ws)
  All-map P Q g [] h a = tt
  All-map P Q g (w ∷ ws) h (p, a) = (h w p, All-map P Q g ws h a)

  pub Hears-fired : (sub_id : Text) {s t : Task} → Hears J sub_id s t → t.fired ≡ s.fired
  Hears-fired sub_id (Cancel.opened token p) = refl
  Hears-fired sub_id (Cancel.refused e p) = refl
  Hears-fired sub_id (Cancel.chunk token c p) = refl
  Hears-fired sub_id (Cancel.failed token e p) = refl
  Hears-fired sub_id (Cancel.ended token p) = refl

  pub Moves-fired :
      (sub_id : Text) {s t : Task} {a : Asks} → Moves J sub_id s a t → t.fired ≡ s.fired
  Moves-fired sub_id (Cancel.give_up p q) = refl
  Moves-fired sub_id (Cancel.abort token p q) = refl
  Moves-fired sub_id (Cancel.send token c p) = refl
  Moves-fired sub_id (Cancel.lose token c p) = refl
  Moves-fired sub_id (Cancel.send_last frame p) = refl
  Moves-fired sub_id (Cancel.lose_last frame p) = refl

  numbered-notify_if : (n j : ℕ) (w : Worker J) → numbered j (notify_if J n w) ≡ numbered j w
  unfolding notify_if
  numbered-notify_if n j (subscriber i sub_id s) = ground arith
  numbered-notify_if n j (calling event) = refl
  numbered-notify_if n j (answering frame) = refl
  numbered-notify_if n j published = refl

  sum-numbered-notify :
      (n j : ℕ) (ws : List (Worker J))
      → sum (numbered j) (map (notify_if J n) ws) ≡ sum (numbered j) ws
  sum-numbered-notify n j [] = refl
  sum-numbered-notify n j (w ∷ ws) =
      omega (arith, numbered-notify_if n j w, sum-numbered-notify n j ws)

  -- An effect starts the task that it says, and no other.
  pub numbered-carried :
      (j : ℕ) (e : Effect J) (ws : List (Worker J))
      → sum (numbered j) (carried J e ws) ≡ sum (numbered j) ws + spawns J j e
  unfolding carried
  numbered-carried j (cancel n) ws = omega (arith, sum-numbered-notify n j ws)
  numbered-carried j (spawn_subscribe n sub_id filters) ws =
      omega (arith, sum-append (numbered j) ws (subscriber n sub_id (Cancel.init J sub_id) ∷ []))
  numbered-carried j (spawn_publish event) ws =
      omega (arith, sum-append (numbered j) ws (calling event ∷ []))
  numbered-carried j (send t) ws = omega arith

  unsignalled-notify_self : (n : ℕ) (w : Worker J) → unsignalled n (notify_if J n w) ≡ 0
  unfolding notify_if
  unsignalled-notify_self n (subscriber i sub_id s) = ground arith
  unsignalled-notify_self n (calling event) = refl
  unsignalled-notify_self n (answering frame) = refl
  unsignalled-notify_self n published = refl

  pub sum-unsignalled-notify_self :
      (n : ℕ) (ws : List (Worker J)) → sum (unsignalled n) (carried J (cancel n) ws) ≡ 0
  unfolding carried
  sum-unsignalled-notify_self n [] = refl
  sum-unsignalled-notify_self n (w ∷ ws) =
      omega (arith, unsignalled-notify_self n w, sum-unsignalled-notify_self n ws)

  unsignalled-notify_ne :
      (n j : ℕ) (w : Worker J) → j ≢ n → unsignalled j (notify_if J n w) ≡ unsignalled j w
  unfolding notify_if
  unsignalled-notify_ne n j (subscriber i sub_id s) ne = elim (Bool-cases (eqb i n)) [
    | inl e ↦ elim (Bool-cases (eqb i j)) [
      | inl f ↦ absurd (ne (sym ((eqb_iff i j).0 f) ∙ (eqb_iff i n).0 e))
      | inr f ↦ ground (arith, e, f)
    ]
    | inr e ↦ rw e refl
  ]
  unsignalled-notify_ne n j (calling event) ne = refl
  unsignalled-notify_ne n j (answering frame) ne = refl
  unsignalled-notify_ne n j published ne = refl

  pub sum-unsignalled-notify_ne :
      (n j : ℕ) (ws : List (Worker J))
      → j ≢ n
      → sum (unsignalled j) (carried J (cancel n) ws) ≡ sum (unsignalled j) ws
  unfolding carried
  sum-unsignalled-notify_ne n j [] ne = refl
  sum-unsignalled-notify_ne n j (w ∷ ws) ne =
      omega (arith, unsignalled-notify_ne n j w ne, sum-unsignalled-notify_ne n j ws ne)

  pub unsignalled-le : (n : ℕ) (ws : List (Worker J)) → sum (unsignalled n) ws ≤ sum (numbered n) ws
  unsignalled-le n [] = omega arith
  unsignalled-le n (subscriber i sub_id s ∷ ws) = ground (arith, unsignalled-le n ws)
  unsignalled-le n (calling event ∷ ws) = omega (arith, unsignalled-le n ws)
  unsignalled-le n (answering frame ∷ ws) = omega (arith, unsignalled-le n ws)
  unsignalled-le n (published ∷ ws) = omega (arith, unsignalled-le n ws)
