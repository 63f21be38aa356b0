-- ===== src/Shim/Live/Verbatim.antt =====
-- The chunks of the server on a running connection (crates/outlay-shim/src/conn.rs): what a client has
-- on its socket of a subscription is what the stream of that subscription brought.
use outlay.Base.{
  ℕ, List, [], ◌∷◌, ◌++◌, ◌≡◌, ◌⊎◌, refl, sym, ap, ◌∙◌, inl, inr, All, append-nil, append_assoc,
}
use mathlib.Core.Path.{subst}
use outlay.Base.Text.{Text}
use outlay.Json.{Json}
use outlay.Shim.Conn.Cancel.{Task, Phase, setting_up, streaming, sending, closing, returned}
use outlay.Shim.Conn.Loop.{sent_by}
use outlay.Shim.Conn.Writer.{finished}
use outlay.Shim.Live.{Worker, subscriber, Live, IsDead, Reach}
use outlay.Shim.Live.Delivered.{Reach-Delivers, Reach-IsServed}
use outlay.Shim.Live.Heard.{heard, Heeds, HeedsWorker}
use outlay.Shim.Live.Said.{from}
use outlay.Shim.Live.Workers.{All_at}
use outlay.Shim.Translate.{closed_frame}
use outlay.Shim.Live.Heeding.{Reach-Heed}

module _ (J : Json) where
  -- Nothing, or the CLOSED of an error of the call.
  abbrev pub IsTail : Text → List Text → Type 0
  IsTail sub_id tail = (tail ≡ []) ⊎ ((e : Text) × (tail ≡ closed_frame J sub_id e ∷ []))

  Heeds-prefix :
      (hs : List Text) (sub_id : Text) (p : Phase) (said : List Text)
      → Heeds J hs sub_id p said
      → (rest tail : List Text) × (said ++ rest ≡ hs ++ tail) × IsTail sub_id tail
  Heeds-prefix hs sub_id setting_up said h = ([], [], ap (λ x. x ++ []) h, inl refl)
  Heeds-prefix hs sub_id (streaming token) said h = ([], [], ap (λ x. x ++ []) h, inl refl)
  Heeds-prefix hs sub_id (sending token c) said h = (c ∷ [], [], h ∙ sym (append-nil hs), inl refl)
  Heeds-prefix hs sub_id (closing f) said (h, e, k) = ([], [], ap (λ x. x ++ []) h, inl refl)
  Heeds-prefix hs sub_id returned said (inl h) = ([], [], ap (λ x. x ++ []) h, inl refl)
  Heeds-prefix hs sub_id returned said (inr (e, h)) =
      ([], closed_frame J sub_id e ∷ [], append-nil said ∙ h, inr (e, refl))

  Heeds-whole :
      (hs : List Text) (sub_id : Text) (said : List Text)
      → Heeds J hs sub_id returned said
      → (tail : List Text) × (said ≡ hs ++ tail) × IsTail sub_id tail
  Heeds-whole hs sub_id said (inl h) = ([], h ∙ sym (append-nil hs), inl refl)
  Heeds-whole hs sub_id said (inr (e, h)) = (closed_frame J sub_id e ∷ [], h, inr (e, refl))

  -- However everything on a connection interleaves: the frames of a subscription on the client's
  -- socket are at any time a first part of the chunks that the stream of just this subscription has
  -- brought, verbatim and in order, followed by the CLOSED of an error at most. Once the writer has
  -- ended because every sender is done, they are all of them.
  pub Reach-verbatim :
      {c : Live J} (before after : List (Worker J)) (n : ℕ) (sub_id : Text) (s : Task)
      (r : Reach J c)
      → c.workers ≡ before ++ subscriber n sub_id s ∷ after
      → ((rest tail : List Text) × (from n c.wire ++ rest ≡ heard J n r ++ tail)
          × IsTail sub_id tail)
        × (c.writer ≡ finished
            → (tail : List Text) × (from n c.wire ≡ heard J n r ++ tail) × IsTail sub_id tail)
  Reach-verbatim {c} before after n sub_id s r e =
      let o = Reach-IsServed J before after n sub_id s r e in
      let h =
        All_at J (HeedsWorker J (λ j. heard J j r)) before after (subscriber n sub_id s)
          (subst (All (HeedsWorker J (λ j. heard J j r))) e (Reach-Heed J r).heeding) in
      let (rest, tail, k, t) = Heeds-prefix (heard J n r) sub_id s.phase (sent_by s.outputs) h in
      let (more, g) = o.prefix in
      (
        (
          more ++ rest,
          tail,
          sym (append_assoc (from n c.wire) more rest) ∙ ap (λ x. x ++ rest) g ∙ k,
          t,
        ),
        λ w.
            let dead =
              All_at J (IsDead J) before after (subscriber n sub_id s)
                (subst (All (IsDead J)) e ((Reach-Delivers J r).alone w).0) in
            let (tail, k, t) =
              Heeds-whole (heard J n r) sub_id (sent_by s.outputs)
                (subst (λ p. Heeds J (heard J n r) sub_id p (sent_by s.outputs)) dead h) in
            (tail, o.whole w ∙ k, t),
      )
