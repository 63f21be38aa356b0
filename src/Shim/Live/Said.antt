-- ===== src/Shim/Live/Said.antt =====
-- The frames of each task of a connection (crates/outlay-shim/src/conn.rs): those in the channel and on
-- the socket, and those that the task has output.
use outlay.Base.{
  ℕ, Option, some, none, List, [], ◌∷◌, ◌++◌, ◌≡◌, refl, sym, ap, ◌∙◌, inl, inr, arith, map,
  Bool-cases, eqb, eqb_iff, if◌then◌else◌, append_assoc, append-nil,
}
use outlay.Base.Text.{Text}
use outlay.Json.{Json}
use outlay.Shim.Conn.{Effect, cancel, spawn_subscribe, spawn_publish, send}
use outlay.Shim.Conn.Cancel
use outlay.Shim.Conn.Cancel.{Task, returned, Asks, nothing, put, gone, Hears, Moves}
use outlay.Shim.Conn.Loop.{sent_by}
use outlay.Shim.Live.{
  Frames, Worker, subscriber, calling, answering, published, notify_if, carried, Offers, Sent,
}
use outlay.Shim.Conn.Writer.{Writer}
use outlay.Shim.Live.Workers.{numbered, sum}

-- The frames of task `n`.
abbrev pub from : ℕ → Frames → List Text
from n [] = []
from n ((none, frame) ∷ ms) = from n ms
from n ((some i, frame) ∷ ms) = if eqb i n then frame ∷ from n ms else from n ms

pub from-append : (n : ℕ) (xs ys : Frames) → from n (xs ++ ys) ≡ from n xs ++ from n ys
from-append n [] ys = refl
from-append n ((none, frame) ∷ xs) ys = from-append n xs ys
from-append n ((some i, frame) ∷ xs) ys = elim (Bool-cases (eqb i n)) [
  | inl e ↦ rw (e, from-append n xs ys)
  | inr e ↦ rw (e, from-append n xs ys)
]

-- A frame that is written leaves the channel.
pub from_write :
    (n : ℕ) (m : Option ℕ × Text) (wire queue : Frames)
    → from n (wire ++ m ∷ []) ++ from n queue ≡ from n wire ++ from n (m ∷ queue)
from_write n m wire queue =
    rw (from-append n wire (m ∷ []), from-append n (m ∷ []) queue)
      (append_assoc (from n wire) (from n (m ∷ [])) (from n queue))

pub from-Offers :
    (n : ℕ) (t : Text) (p : Writer) (queue after : Frames)
    → Offers t p queue after
    → from n after ≡ from n queue
from-Offers n t p queue after (inl (g, lt, e)) =
    rw e (from-append n queue ((none, t) ∷ []) ∙ append-nil (from n queue))
from-Offers n t p queue after (inr (g, e)) = ap (from n) e

module _ (J : Json) where
  pub from-Sent :
      (n : ℕ) (e : Effect J) (p : Writer) (queue after : Frames)
      → Sent J e p queue after
      → from n after ≡ from n queue
  from-Sent n (cancel i) p queue after h = ap (from n) h
  from-Sent n (spawn_subscribe i sub_id filters) p queue after h = ap (from n) h
  from-Sent n (spawn_publish event) p queue after h = ap (from n) h
  from-Sent n (send t) p queue after h = from-Offers n t p queue after h

  -- What the task `n` has output.
  abbrev pub said_by : ℕ → Worker J → List Text
  said_by n (subscriber i sub_id s) = if eqb i n then sent_by s.outputs else []
  said_by n w = []

  abbrev pub said : ℕ → List (Worker J) → List Text
  said n [] = []
  said n (w ∷ ws) = said_by n w ++ said n ws

  pub said-append : (n : ℕ) (xs ys : List (Worker J)) → said n (xs ++ ys) ≡ said n xs ++ said n ys
  said-append n [] ys = refl
  said-append n (x ∷ xs) ys =
      ap (◌++◌ (said_by n x)) (said-append n xs ys)
      ∙ sym (append_assoc (said_by n x) (said n xs) (said n ys))

  -- A step that says nothing.
  pub said_same :
      (n : ℕ) (before after : List (Worker J)) (v w : Worker J)
      → said_by n w ≡ said_by n v
      → said n (before ++ w ∷ after) ≡ said n (before ++ v ∷ after)
  said_same n [] after v w h = ap (λ x. x ++ said n after) h
  said_same n (x ∷ before) after v w h = ap (◌++◌ (said_by n x)) (said_same n before after v w h)

  pub said_absent : (n : ℕ) (ws : List (Worker J)) → sum J (numbered J n) ws ≡ 0 → said n ws ≡ []
  said_absent n [] h = refl
  said_absent n (subscriber i sub_id s ∷ ws) h = elim (Bool-cases (eqb i n)) [
    | inl e ↦ absurd (ground (arith, h, e))
    | inr e ↦ rw (e) (said_absent n ws (omega (arith, h)))
  ]
  said_absent n (calling event ∷ ws) h = said_absent n ws (omega (arith, h))
  said_absent n (answering frame ∷ ws) h = said_absent n ws (omega (arith, h))
  said_absent n (published ∷ ws) h = said_absent n ws (omega (arith, h))

  -- A step by which a task says more; its number is its own.
  pub said_more :
      (n : ℕ) (before after : List (Worker J)) (v w : Worker J) (more : List Text)
      → said_by n w ≡ said_by n v ++ more
      → sum J (numbered J n) after ≡ 0
      → said n (before ++ w ∷ after) ≡ said n (before ++ v ∷ after) ++ more
  said_more n [] after v w more h g =
      rw (said_absent n after g)
        (append-nil (said_by n w) ∙ h ∙ ap (λ x. x ++ more) (sym (append-nil (said_by n v))))
  said_more n (x ∷ before) after v w more h g =
      ap (◌++◌ (said_by n x)) (said_more n before after v w more h g)
      ∙ sym (append_assoc (said_by n x) (said n (before ++ v ∷ after)) more)

  pub said_one :
      (n : ℕ) (before after : List (Worker J)) (sub_id : Text) (s : Task)
      → (sum J (numbered J n) before ≡ 0) × (sum J (numbered J n) after ≡ 0)
      → said n (before ++ subscriber n sub_id s ∷ after) ≡ sent_by s.outputs
  said_one n before after sub_id s (p, q) =
      said-append n before (subscriber n sub_id s ∷ after)
      ∙ rw (said_absent n before p, said_absent n after q, (eqb_iff n n).1 refl)
          (append-nil (sent_by s.outputs))

  -- Effects say nothing for a task.
  said-notify : (n i : ℕ) (ws : List (Worker J)) → said n (map (notify_if J i) ws) ≡ said n ws
  unfolding notify_if
  said-notify n i [] = refl
  said-notify n i (subscriber j sub_id s ∷ ws) = elim (Bool-cases (eqb j i)) [
    | inl e ↦ rw e (ap (◌++◌ (said_by n (subscriber j sub_id s))) (said-notify n i ws))
    | inr e ↦ rw e (ap (◌++◌ (said_by n (subscriber j sub_id s))) (said-notify n i ws))
  ]
  said-notify n i (calling event ∷ ws) = said-notify n i ws
  said-notify n i (answering frame ∷ ws) = said-notify n i ws
  said-notify n i (published ∷ ws) = said-notify n i ws

  pub said-carried :
      (n : ℕ) (e : Effect J) (ws : List (Worker J)) → said n (carried J e ws) ≡ said n ws
  unfolding carried sent_by
  said-carried n (cancel i) ws = said-notify n i ws
  said-carried n (spawn_subscribe i sub_id filters) ws =
      said-append n ws (subscriber i sub_id (Cancel.init J sub_id) ∷ [])
      ∙ elim (Bool-cases (eqb i n)) [
        | inl e ↦ rw e (append-nil (said n ws))
        | inr e ↦ rw e (append-nil (said n ws))
      ]
  said-carried n (spawn_publish event) ws =
      said-append n ws (calling event ∷ []) ∙ append-nil (said n ws)
  said-carried n (send t) ws = refl
