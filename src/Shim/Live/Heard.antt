-- ===== src/Shim/Live/Heard.antt =====
-- What the server's streams have brought to the subscription tasks of a running connection
-- (crates/outlay-shim/src/conn.rs), and what the tasks have made of it.
use outlay.Base.{
  ℕ, List, [], ◌∷◌, ◌++◌, ◌≡◌, ◌≢◌, ◌⊎◌, refl, sym, ap, ◌∙◌, inl, inr, arith, All, All-append,
  Bool-cases, eqb, eqb_iff, if◌then◌else◌, append-nil,
}
use mathlib.Core.Path.{subst}
use outlay.Base.Text.{Text}
use outlay.Json.{Json}
use outlay.Shim.Conn.{Effect, cancel, spawn_subscribe, spawn_publish, send}
use outlay.Shim.Conn.Cancel
use outlay.Shim.Conn.Cancel.{
  Task, Phase, setting_up, streaming, sending, closing, returned, Hears, Moves, Asks,
}
use outlay.Shim.Conn.Loop.{sent_by, sent_by-append}
use outlay.Shim.Live.{
  Worker, subscriber, calling, answering, published, Live, notify_if, carried, World, frame, hears,
  answers, Reach, start, world, acts,
}
use outlay.Shim.Live.Workers.{numbered, sum, All-map}
use outlay.Shim.Translate.{closed_frame}

module _ (J : Json) where
  -- The chunk of a step of the server's stream.
  abbrev pub chunk_of : {sub_id : Text} {s t : Task} → Hears J sub_id s t → List Text
  chunk_of (Cancel.opened token p) = []
  chunk_of (Cancel.refused e p) = []
  chunk_of (Cancel.chunk token c p) = c ∷ []
  chunk_of (Cancel.failed token e p) = []
  chunk_of (Cancel.ended token p) = []

  abbrev pub brought : ℕ → {b c : Live J} → World J b c → List Text
  brought n (frame f e) = []
  brought n (hears before after i sub_id s t e h) = if eqb i n then chunk_of h else []
  brought n (answers before after event r e) = []

  -- All that a run has brought to the task `n`, in order.
  abbrev pub heard : ℕ → {c : Live J} → Reach J c → List Text
  heard n start = []
  heard n (world r s) = heard n r ++ brought n s
  heard n (acts r s) = heard n r

  -- What a task has said for what it has heard: the same, but for the chunk that waits to be sent,
  -- and for the CLOSED of an error, which comes last.
  abbrev pub Heeds : List Text → Text → Phase → List Text → Type 0
  Heeds hs sub_id setting_up said = said ≡ hs
  Heeds hs sub_id (streaming token) said = said ≡ hs
  Heeds hs sub_id (sending token c) said = said ++ c ∷ [] ≡ hs
  Heeds hs sub_id (closing f) said = (said ≡ hs) × (e : Text) × (f ≡ closed_frame J sub_id e)
  Heeds hs sub_id returned said =
      (said ≡ hs) ⊎ ((e : Text) × (said ≡ hs ++ closed_frame J sub_id e ∷ []))

  abbrev pub HeedsWorker : (ℕ → List Text) → Worker J → Type 0
  HeedsWorker hs (subscriber n sub_id s) = Heeds (hs n) sub_id s.phase (sent_by s.outputs)
  HeedsWorker hs w = Unit

  -- A task in the phase that it is in.
  in_phase :
      (hs : List Text) (sub_id : Text) (s : Task) (p : Phase)
      → s.phase ≡ p
      → Heeds hs sub_id s.phase (sent_by s.outputs)
      → Heeds hs sub_id p (sent_by s.outputs)
  in_phase hs sub_id s p e h = subst (λ x. Heeds hs sub_id x (sent_by s.outputs)) e h

  pub Hears-Heeds :
      (hs : List Text) (sub_id : Text) {s t : Task} (h : Hears J sub_id s t)
      → Heeds hs sub_id s.phase (sent_by s.outputs)
      → Heeds (hs ++ chunk_of h) sub_id t.phase (sent_by t.outputs)
  Hears-Heeds hs sub_id {s} (Cancel.opened token p) o =
      in_phase hs sub_id s setting_up p o ∙ sym (append-nil hs)
  Hears-Heeds hs sub_id {s} (Cancel.refused e p) o =
      (in_phase hs sub_id s setting_up p o ∙ sym (append-nil hs), e, refl)
  Hears-Heeds hs sub_id {s} (Cancel.chunk token c p) o =
      ap (λ x. x ++ c ∷ []) (in_phase hs sub_id s (streaming token) p o)
  Hears-Heeds hs sub_id {s} (Cancel.failed token e p) o =
      (in_phase hs sub_id s (streaming token) p o ∙ sym (append-nil hs), e, refl)
  Hears-Heeds hs sub_id {s} (Cancel.ended token p) o =
      inl (in_phase hs sub_id s (streaming token) p o ∙ sym (append-nil hs))

  pub Moves-Heeds :
      (hs : List Text) (sub_id : Text) {s t : Task} {a : Asks}
      → Moves J sub_id s a t
      → Heeds hs sub_id s.phase (sent_by s.outputs)
      → Heeds hs sub_id t.phase (sent_by t.outputs)
  unfolding sent_by
  Moves-Heeds hs sub_id {s} (Cancel.give_up p q) o = inl (
      sent_by-append s.outputs []
      ∙ append-nil (sent_by s.outputs)
      ∙ in_phase hs sub_id s setting_up p o)
  Moves-Heeds hs sub_id {s} (Cancel.abort token p q) o = inl (
      sent_by-append s.outputs _
      ∙ append-nil (sent_by s.outputs)
      ∙ in_phase hs sub_id s (streaming token) p o)
  Moves-Heeds hs sub_id {s} (Cancel.send token c p) o =
      sent_by-append s.outputs _ ∙ in_phase hs sub_id s (sending token c) p o
  Moves-Heeds hs sub_id {s} (Cancel.lose token c p) o =
      inl (sent_by-append s.outputs _ ∙ in_phase hs sub_id s (sending token c) p o)
  Moves-Heeds hs sub_id {s} (Cancel.send_last f p) o =
      let (h, e, k) = in_phase hs sub_id s (closing f) p o in
      inr (e, sent_by-append s.outputs _ ∙ ap (λ x. x ++ f ∷ []) h ∙ ap (λ x. hs ++ x ∷ []) k)
  Moves-Heeds hs sub_id {s} (Cancel.lose_last f p) o =
      let (h, e, k) = in_phase hs sub_id s (closing f) p o in
      inr (e, sent_by-append s.outputs _ ∙ ap (λ x. x ++ f ∷ []) h ∙ ap (λ x. hs ++ x ∷ []) k)

  -- Workers that have heard nothing new.
  pub All-HeedsWorker :
      (hs gs : ℕ → List Text) (n : ℕ) (ws : List (Worker J))
      → ((j : ℕ) → j ≢ n → gs j ≡ hs j)
      → sum J (numbered J n) ws ≡ 0
      → All (HeedsWorker hs) ws
      → All (HeedsWorker gs) ws
  All-HeedsWorker hs gs n [] e z h = tt
  All-HeedsWorker hs gs n (subscriber i sub_id s ∷ ws) e z (p, h) = (
    subst (λ x. Heeds x sub_id s.phase (sent_by s.outputs)) (sym (e i other)) p,
    All-HeedsWorker hs gs n ws e (omega (arith, z)) h,
  )
    where
      other : i ≢ n
      other k = absurd (omega (arith, rw ((eqb_iff i n).1 k) at z))
  All-HeedsWorker hs gs n (calling event ∷ ws) e z (p, h) =
      (tt, All-HeedsWorker hs gs n ws e (omega (arith, z)) h)
  All-HeedsWorker hs gs n (answering f ∷ ws) e z (p, h) =
      (tt, All-HeedsWorker hs gs n ws e (omega (arith, z)) h)
  All-HeedsWorker hs gs n (published ∷ ws) e z (p, h) =
      (tt, All-HeedsWorker hs gs n ws e (omega (arith, z)) h)

  pub All_split :
      (P : Worker J → Type 0) (before after : List (Worker J)) (v : Worker J)
      → All P (before ++ v ∷ after)
      → All P before × P v × All P after
  All_split P [] after v (p, h) = (tt, p, h)
  All_split P (x ∷ before) after v (q, h) =
      let (a, p, b) = All_split P before after v h in ((q, a), p, b)

  notify_if-HeedsWorker :
      (hs : ℕ → List Text) (n : ℕ) (w : Worker J)
      → HeedsWorker hs w
      → HeedsWorker hs (notify_if J n w)
  unfolding notify_if
  notify_if-HeedsWorker hs n (subscriber i sub_id s) h = elim (Bool-cases (eqb i n)) [
    | inl e ↦ rw e h
    | inr e ↦ rw e h
  ]
  notify_if-HeedsWorker hs n (calling event) h = tt
  notify_if-HeedsWorker hs n (answering f) h = tt
  notify_if-HeedsWorker hs n published h = tt

  -- A task that is started has heard nothing.
  abbrev pub StartsNew : (ℕ → List Text) → Effect J → Type 0
  StartsNew hs (spawn_subscribe n sub_id filters) = hs n ≡ []
  StartsNew hs e = Unit

  pub carried-HeedsWorker :
      (hs : ℕ → List Text) (e : Effect J) (ws : List (Worker J))
      → StartsNew hs e
      → All (HeedsWorker hs) ws
      → All (HeedsWorker hs) (carried J e ws)
  unfolding carried sent_by
  carried-HeedsWorker hs (cancel n) ws q h = All-map J _ _ _ ws (notify_if-HeedsWorker hs n) h
  carried-HeedsWorker hs (spawn_subscribe n sub_id filters) ws q h = All-append _ ws _ h (sym q, tt)
  carried-HeedsWorker hs (spawn_publish event) ws q h = All-append _ ws _ h (tt, tt)
  carried-HeedsWorker hs (send t) ws q h = h
