-- ===== src/Proxy/Isolation.antt =====
-- Isolation of the streams that share the upstream connection (crates/outlay/src/proxy.rs).
use outlay.Base.{
  Bool, true, false, Option, some, none, List, [], ◌∷◌, ◌≡◌, refl, ap, sym, ◌∙◌, inl, inr,
  Bool-cases, keep,
}
use outlay.Base.Res.{Result, ok, err}
use outlay.Base.Text.{Text, ◌==◌}
use outlay.Json.{Json}
use outlay.Nostr.{Nostr, event, end_of_stored_events, closed, other, message, shutdown}
use outlay.Proxy.{map_notification}
use outlay.Proxy.Chunks.{about}
use outlay.Proxy.Subscribe.{Wake, notified, lagged, poll, Turn, forward, round, pump, run_subscribe}

abbrev pub tagged : Text → Option Text → Bool
tagged id none = false
tagged id (some sid) = sid == id

-- Whether a round is about the stream `id`, or about its sink or the pool.
abbrev pub is_own : {E : Type 0} → Text → Wake E → Bool
is_own id (notified (message url m)) = tagged id (about m)
is_own id (notified shutdown) = true
is_own id (notified other) = false
is_own id lagged = false
is_own id Wake.closed = true
is_own id poll = true

abbrev pub own_turns : {E : Type 0} → Text → List (Turn E) → List (Turn E)
own_turns id = keep (λ t. is_own id t.wake)

module _ (J : Json) (N : Nostr J) (id client_sub : Text) where
  open N use {Event}

  round_foreign :
      (t : Turn Event) (w : Wake Event)
      → is_own id w ≡ false
      → round J N id client_sub t w ≡ (none, false)
  unfolding round map_notification forward
  round_foreign t (notified (message url (event sid e))) h = rw h
  round_foreign t (notified (message url (end_of_stored_events sid))) h = rw h
  round_foreign t (notified (message url (closed sid reason))) h = rw h
  round_foreign t (notified (message url other)) h = refl
  round_foreign t (notified shutdown) h = cc
  round_foreign t (notified other) h = refl
  round_foreign t lagged h = refl
  round_foreign t Wake.closed h = cc
  round_foreign t poll h = cc

  pump-own_turns :
      (ts : List (Turn Event))
      → pump J N id client_sub (own_turns id ts) ≡ pump J N id client_sub ts
  unfolding pump
  pump-own_turns [] = refl
  pump-own_turns (t ∷ ts) = elim (Bool-cases (is_own id t.wake)) [
    | inl e ↦ rw e (rw (pump-own_turns ts, pump))
    | inr n ↦ rw (n, round_foreign t t.wake n, pump) (pump-own_turns ts)
  ]

  run_subscribe-own_turns :
      (fs : List N.Filter) (subscribed : Result Text (Unit {0})) (ts : List (Turn Event))
      (active : Bool)
      → run_subscribe J N client_sub fs id subscribed (own_turns id ts) active
        ≡ run_subscribe J N client_sub fs id subscribed ts active
  unfolding run_subscribe
  run_subscribe-own_turns [] subscribed ts active = refl
  run_subscribe-own_turns (f ∷ fs) (err e) ts active = refl
  run_subscribe-own_turns (f ∷ fs) (ok _) ts active = rw (pump-own_turns ts)

  -- Two clients may share the upstream: what one stream writes, and whether it ends, depends only
  -- on the rounds that are about it. Rounds about other subscriptions may come in any number.
  pub run_subscribe_isolated :
      (fs : List N.Filter) (subscribed : Result Text (Unit {0})) (ts us : List (Turn Event))
      (active : Bool)
      → own_turns id ts ≡ own_turns id us
      → run_subscribe J N client_sub fs id subscribed ts active
        ≡ run_subscribe J N client_sub fs id subscribed us active
  run_subscribe_isolated fs subscribed ts us active h =
      sym (run_subscribe-own_turns fs subscribed ts active)
      ∙ ap (λ vs. run_subscribe J N client_sub fs id subscribed vs active) h
      ∙ run_subscribe-own_turns fs subscribed us active
