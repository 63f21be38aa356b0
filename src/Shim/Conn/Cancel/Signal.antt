-- ===== src/Shim/Conn/Cancel/Signal.antt =====
-- A subscription task of crates/outlay-shim/src/conn.rs and its cancel signal: the signal is not lost,
-- and the outputs are those of `subscribe_loop`.
use outlay.Base.{
  Bool, true, false, List, [], ◌∷◌, ◌++◌, ◌≡◌, ◌≢◌, refl, ap, sym, ◌∙◌, map, append_assoc,
  append-nil,
}
use mathlib.Core.Path.{subst}
use outlay.Base.Text.{Text}
use outlay.Json.{Json}
use outlay.Shim.Conn.Cancel
use outlay.Shim.Conn.Cancel.{
  Phase, setting_up, streaming, sending, closing, returned, Task, notify, Asks, nothing, gone, put,
  Hears, opened, refused, chunk, failed, ended, Moves, give_up, abort, send, lose, send_last,
  lose_last, Reach, start, fire, hear, move,
}
use outlay.Shim.Conn.Loop
use outlay.Shim.Translate.{closed_frame}
use outlay.Shim.Conn.Loop.{
  Setup, Round, Output, forward, cancel_call, reason, chunks, subscribe_loop, subscribe_loop_lem,
}

module _ (J : Json) (sub_id : Text) where
  -- Some run of `subscribe_loop` has these outputs, and has returned or not.
  abbrev pub Runs : List Output → Bool → Type 0
  Runs outputs done =
      (setup : Setup) × (rs : List Round) × (subscribe_loop J sub_id setup rs ≡ (outputs, done))

  -- The outputs of a task in its phase.
  abbrev pub Behaves : Phase → List Output → Type 0
  Behaves setting_up outputs = outputs ≡ []
  Behaves (streaming token) outputs = (cs : List Text) × (outputs ≡ map forward cs)
  Behaves (sending token c) outputs = (cs : List Text) × (outputs ≡ map forward cs)
  Behaves (closing frame) outputs = Runs (outputs ++ forward frame ∷ []) true
  Behaves returned outputs = Runs outputs true

  -- A signal that was given waits in the permit, unless the task has returned.
  abbrev pub Keeps : Phase → Bool → Bool → Type 0
  Keeps returned permit fired = Unit
  Keeps p permit fired = fired ≡ true → permit ≡ true

  pub record IsSound (s : Task) : Type 0 where
    pub behaves : Behaves s.phase s.outputs
    pub keeps : Keeps s.phase s.permit s.fired

  map-snoc :
      (cs : List Text) (c : Text) → map forward (cs ++ c ∷ []) ≡ map forward cs ++ forward c ∷ []
  map-snoc [] c = refl
  map-snoc (d ∷ cs) c = ap (◌∷◌ (forward d)) (map-snoc cs c)

  -- A call that is open ends with the last words of the round.
  ended_by :
      (token : Text) (r : Round) (outputs : List Output)
      → Loop.Ends J sub_id r
      → Behaves (streaming token) outputs
      → Runs (outputs ++ Loop.last_words J sub_id token r) true
  ended_by token r outputs h (cs, e) = (
    Loop.opened token,
    chunks J sub_id cs ++ r ∷ [],
    subscribe_loop_lem J sub_id token cs r [] h ∙ rw e,
  )

  Keeps-permit : (p : Phase) (fired : Bool) → Keeps p true fired
  Keeps-permit setting_up fired = λ h. refl
  Keeps-permit (streaming token) fired = λ h. refl
  Keeps-permit (sending token c) fired = λ h. refl
  Keeps-permit (closing frame) fired = λ h. refl
  Keeps-permit returned fired = tt

  -- What holds of a task in the phase that it is in.
  in_phase :
      (s : Task) (p : Phase)
      → s.phase ≡ p
      → IsSound s
      → Behaves p s.outputs × Keeps p s.permit s.fired
  in_phase s p h o = (
    subst (λ x. Behaves x s.outputs) h o.behaves,
    subst (λ x. Keeps x s.permit s.fired) h o.keeps,
  )

  refused_run :
      (e : Text) (outputs : List Output)
      → outputs ≡ []
      → Runs (outputs ++ forward (closed_frame J sub_id e) ∷ []) true
  unfolding subscribe_loop
  refused_run e outputs h = (Loop.refused e, [], rw h)

  gave_up_run : (outputs : List Output) → outputs ≡ [] → Runs (outputs ++ []) true
  unfolding subscribe_loop
  gave_up_run outputs h = (Setup.cancelled, [], rw h)

  pub init-IsSound : IsSound (Cancel.init J sub_id)
  init-IsSound = record { behaves = refl; keeps = λ h. cc }

  pub notify-IsSound : {s : Task} → IsSound s → IsSound (notify s)
  notify-IsSound {s} o = record { behaves = o.behaves; keeps = Keeps-permit s.phase true }

  pub Hears-IsSound : {s t : Task} → Hears J sub_id s t → IsSound s → IsSound t
  Hears-IsSound {s} (opened token p) o =
      let (b, k) = in_phase s setting_up p o in record { behaves = ([], b); keeps = k }
  Hears-IsSound {s} (refused e p) o =
      let (b, k) = in_phase s setting_up p o in
      record { behaves = refused_run e s.outputs b; keeps = k }
  Hears-IsSound {s} (chunk token c p) o =
      let (b, k) = in_phase s (streaming token) p o in record { behaves = b; keeps = k }
  Hears-IsSound {s} (failed token e p) o =
      let (b, k) = in_phase s (streaming token) p o in
      record { behaves = ended_by token (Round.error e) s.outputs tt b; keeps = k }
  Hears-IsSound {s} (ended token p) o = record {
    behaves =
        subst (λ x. Runs x true) (append-nil s.outputs)
          (ended_by token Round.ended s.outputs tt (in_phase s (streaming token) p o).0);
    keeps = tt;
  }

  pub Moves-IsSound : {s t : Task} {a : Asks} → Moves J sub_id s a t → IsSound s → IsSound t
  Moves-IsSound {s} (give_up p q) o = record {
    behaves = gave_up_run s.outputs (in_phase s setting_up p o).0;
    keeps = tt;
  }
  Moves-IsSound {s} (abort token p q) o = record {
    behaves = ended_by token Round.cancelled s.outputs tt (in_phase s (streaming token) p o).0;
    keeps = tt;
  }
  Moves-IsSound {s} (send token c p) o =
      let (b, k) = in_phase s (sending token c) p o in
      record {
        behaves = (b.0 ++ c ∷ [], ap (λ x. x ++ forward c ∷ []) b.1 ∙ sym (map-snoc b.0 c));
        keeps = k;
      }
  Moves-IsSound {s} (lose token c p) o = record {
    behaves =
        ended_by token (Round.chunk c false) s.outputs refl (in_phase s (sending token c) p o).0;
    keeps = tt;
  }
  Moves-IsSound {s} (send_last frame p) o = record {
    behaves = (in_phase s (closing frame) p o).0;
    keeps = tt;
  }
  Moves-IsSound {s} (lose_last frame p) o = record {
    behaves = (in_phase s (closing frame) p o).0;
    keeps = tt;
  }

  Reach-IsSound : {s : Task} → Reach J sub_id s → IsSound s
  Reach-IsSound start = init-IsSound
  Reach-IsSound (fire r) = notify-IsSound (Reach-IsSound r)
  Reach-IsSound (hear r h) = Hears-IsSound h (Reach-IsSound r)
  Reach-IsSound (move r m) = Moves-IsSound m (Reach-IsSound r)

  -- What a task with the signal has yet to output, by itself: the frame that it waits to send, and
  -- the abort of its call, where it has one.
  abbrev pub rest : Phase → List Output
  rest setting_up = []
  rest (streaming token) = cancel_call token reason ∷ []
  rest (sending token c) = forward c ∷ cancel_call token reason ∷ []
  rest (closing frame) = forward frame ∷ []
  rest returned = []

  -- One move, or two.
  pub data Finishes (s t : Task) : Type 0 where
    at_once : {a : Asks} → Moves J sub_id s a t → Finishes s t
    after_send :
        {u : Task} {a b : Asks} → Moves J sub_id s a u → Moves J sub_id u b t → Finishes s t

  -- The task returns by itself, with what it has yet to output.
  abbrev pub Returns : Task → Type 0
  Returns s =
      (t : Task) × Finishes s t × (t.phase ≡ returned) × (t.outputs ≡ s.outputs ++ rest s.phase)

  can_return : (s : Task) (p : Phase) → s.phase ≡ p → p ≢ returned → s.permit ≡ true → Returns s
  can_return s setting_up h ne q =
      (_, at_once (give_up h q), refl, ap (λ x. s.outputs ++ rest x) (sym h))
  can_return s (streaming token) h ne q =
      (_, at_once (abort token h q), refl, ap (λ x. s.outputs ++ rest x) (sym h))
  can_return s (sending token c) h ne q = (
    _,
    after_send (send token c h) (abort token refl q),
    refl,
    append_assoc s.outputs (forward c ∷ []) (cancel_call token reason ∷ [])
        ∙ ap (λ x. s.outputs ++ rest x) (sym h),
  )
  can_return s (closing frame) h ne q =
      (_, at_once (send_last frame h), refl, ap (λ x. s.outputs ++ rest x) (sym h))
  can_return s returned h ne q = absurd (ne refl)

  Keeps-permitted :
      (p : Phase) (permit fired : Bool)
      → p ≢ returned
      → Keeps p permit fired
      → fired ≡ true
      → permit ≡ true
  Keeps-permitted setting_up permit fired ne k h = k h
  Keeps-permitted (streaming token) permit fired ne k h = k h
  Keeps-permitted (sending token c) permit fired ne k h = k h
  Keeps-permitted (closing frame) permit fired ne k h = k h
  Keeps-permitted returned permit fired ne k h = absurd (ne refl)

  pub IsSound-permitted :
      (s : Task) → IsSound s → s.phase ≢ returned → s.fired ≡ true → s.permit ≡ true
  IsSound-permitted s o ne f = Keeps-permitted s.phase s.permit s.fired ne o.keeps f

  pub IsSound-Runs : (s : Task) → IsSound s → s.phase ≡ returned → Runs s.outputs true
  IsSound-Runs s o h = (in_phase s returned h o).0

  -- Whenever the signal is given, before the call is open, during it or just before it ends by itself,
  -- it is not lost: a task that has not returned by then can return in one move of its own, or in
  -- two where it waits to send a chunk, with that frame and the abort of the call that it has open.
  -- And however signal, stream and writer interleave, a task that has returned did what
  -- `subscribe_loop` does in some sequence of rounds.
  pub Reach-Returns :
      {s : Task}
      → Reach J sub_id s
      → (s.fired ≡ true → s.phase ≢ returned → Returns s)
        × (s.phase ≡ returned → Runs s.outputs true)
  Reach-Returns {s} r =
      let o = Reach-IsSound r in
      (λ f ne. can_return s s.phase refl ne (IsSound-permitted s o ne f), IsSound-Runs s o)
