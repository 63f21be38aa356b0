-- ===== src/Shim/Live/Outputs.antt =====
-- What a step of a subscription task (crates/outlay-shim/src/conn.rs) adds to its outputs and to the
-- channel of its connection.
use outlay.Base.{
  ℕ, ◌≤◌, some, List, [], ◌∷◌, ◌++◌, ◌≡◌, ◌≢◌, refl, sym, ◌∙◌, inl, inr, arith, Bool-cases, eqb,
  eqb_iff, if◌then◌else◌, append-nil,
}
use mathlib.Core.Path.{subst}
use outlay.Base.Text.{Text}
use outlay.Json.{Json}
use outlay.Shim.Conn.Cancel
use outlay.Shim.Conn.Cancel.{Task, returned, Asks, nothing, put, gone, Hears, Moves}
use outlay.Shim.Conn.Loop.{sent_by, sent_by-append}
use outlay.Shim.Conn.Writer.{running}
use outlay.Shim.Live.{Frames, Worker, subscriber, Passes}
use outlay.Shim.Live.Said.{from, from-append, said, said_same, said_more}
use outlay.Shim.Live.Workers.{numbered, sum, sum-append}

module _ (J : Json) where
  pub Hears-alive : (sub_id : Text) {s t : Task} → Hears J sub_id s t → s.phase ≢ returned
  Hears-alive sub_id (Cancel.opened token p) = λ e. cc
  Hears-alive sub_id (Cancel.refused r p) = λ e. cc
  Hears-alive sub_id (Cancel.chunk token c p) = λ e. cc
  Hears-alive sub_id (Cancel.failed token r p) = λ e. cc
  Hears-alive sub_id (Cancel.ended token p) = λ e. cc

  pub Hears-outputs : (sub_id : Text) {s t : Task} → Hears J sub_id s t → t.outputs ≡ s.outputs
  Hears-outputs sub_id (Cancel.opened token p) = refl
  Hears-outputs sub_id (Cancel.refused r p) = refl
  Hears-outputs sub_id (Cancel.chunk token c p) = refl
  Hears-outputs sub_id (Cancel.failed token r p) = refl
  Hears-outputs sub_id (Cancel.ended token p) = refl

  pub Moves-alive :
      (sub_id : Text) {s t : Task} {a : Asks} → Moves J sub_id s a t → s.phase ≢ returned
  Moves-alive sub_id (Cancel.give_up p q) = λ e. cc
  Moves-alive sub_id (Cancel.abort token p q) = λ e. cc
  Moves-alive sub_id (Cancel.send token c p) = λ e. cc
  Moves-alive sub_id (Cancel.lose token c p) = λ e. cc
  Moves-alive sub_id (Cancel.send_last r p) = λ e. cc
  Moves-alive sub_id (Cancel.lose_last r p) = λ e. cc

  -- What a move says goes into the channel, where it asks for that.
  abbrev pub Says : Asks → List Text → Type 0
  Says nothing more = more ≡ []
  Says (put c) more = more ≡ c ∷ []
  Says gone more = Unit

  pub Moves-Says :
      (sub_id : Text) {s t : Task} {a : Asks}
      → Moves J sub_id s a t
      → (more : List Text) × (sent_by t.outputs ≡ sent_by s.outputs ++ more) × Says a more
  unfolding sent_by
  Moves-Says sub_id {s} (Cancel.give_up p q) = ([], sent_by-append s.outputs [], refl)
  Moves-Says sub_id {s} (Cancel.abort token p q) = ([], sent_by-append s.outputs _, refl)
  Moves-Says sub_id {s} (Cancel.send token c p) = (c ∷ [], sent_by-append s.outputs _, refl)
  Moves-Says sub_id {s} (Cancel.lose token c p) = (c ∷ [], sent_by-append s.outputs _, tt)
  Moves-Says sub_id {s} (Cancel.send_last r p) = (r ∷ [], sent_by-append s.outputs _, refl)
  Moves-Says sub_id {s} (Cancel.lose_last r p) = (r ∷ [], sent_by-append s.outputs _, tt)

  abbrev pub more_of : ℕ → ℕ → List Text → List Text
  more_of n j more = if eqb n j then more else []

  -- A number stands for one task.
  pub others :
      (n : ℕ) (before after : List (Worker J)) (sub_id : Text) (s : Task)
      → sum J (numbered J n) (before ++ subscriber n sub_id s ∷ after) ≤ 1
      → (sum J (numbered J n) before ≡ 0) × (sum J (numbered J n) after ≡ 0)
  others n before after sub_id s h = omega (
    arith,
    rw ((eqb_iff n n).1 refl) at
        (sum-append J (numbered J n) before (subscriber n sub_id s ∷ after)),
    h,
  )

  pub said-moved :
      (n j : ℕ) (before after : List (Worker J)) (sub_id : Text) (s t : Task) (more : List Text)
      → sent_by t.outputs ≡ sent_by s.outputs ++ more
      → sum J (numbered J n) after ≡ 0
      → said J j (before ++ subscriber n sub_id t ∷ after)
        ≡ said J j (before ++ subscriber n sub_id s ∷ after) ++ more_of n j more
  said-moved n j before after sub_id s t more h g = elim (Bool-cases (eqb n j)) [
    | inl e ↦ rw e (
        said_more J j before after (subscriber n sub_id s) (subscriber n sub_id t) more (rw e h)
          (subst (λ x. sum J (numbered J x) after ≡ 0) ((eqb_iff n j).0 e) g))
    | inr e ↦ rw e (
        said_same J j before after (subscriber n sub_id s) (subscriber n sub_id t) (rw e refl)
        ∙ sym (append-nil _))
  ]

  pub from-moved :
      (n j : ℕ) (a : Asks) (more : List Text) (queue after : Frames)
      → Says a more
      → Passes (some n) a running queue after
      → from j after ≡ from j queue ++ more_of n j more
  from-moved n j nothing more queue after h p = elim (Bool-cases (eqb n j)) [
    | inl e ↦ rw (e, p, h) (sym (append-nil (from j queue)))
    | inr e ↦ rw (e, p) (sym (append-nil (from j queue)))
  ]
  from-moved n j (put c) more queue after h (g, lt, p) = elim (Bool-cases (eqb n j)) [
    | inl e ↦ rw (e, p, h, from-append j queue ((some n, c) ∷ []), e) refl
    | inr e ↦ rw (e, p, from-append j queue ((some n, c) ∷ []), e) refl
  ]
  from-moved n j gone more queue after h (g, p) = cc
