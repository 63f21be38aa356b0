-- ===== src/Proxy/Delivery.antt =====
-- What the subscription loop of crates/outlay/src/proxy.rs writes: every message of the stream's
-- own subscription, in order, under the client's id, and a CLOSED only as the last chunk.
use outlay.Base.{
  Bool, true, false, Option, some, none, List, [], ◌∷◌, ◌≡◌, ◌⊎◌, refl, inl, inr, map, Bool-cases,
  if◌then◌else◌, All,
}
use mathlib.Core.Path.{subst, ap₂}
use mathlib.Core.Option.{some-injective}
use outlay.Base.Text.{Text, codes, ◌==◌, ==_iff}
use outlay.Json.{Json}
use outlay.Json.Laws.{HasTexts}
use outlay.Nostr.{
  Nostr, RelayMessage, event, end_of_stored_events, closed, other, message, shutdown,
}
use outlay.Proxy.{Forward, continue, stop, chunk, map_notification}
use outlay.Proxy.Chunks.{IsFrame, Frame, about, parse_array-chunk, map_notification-IsFrame}
use outlay.Proxy.Stream.{Ending, round_iff}
use outlay.Proxy.Subscribe.{Wake, notified, lagged, poll, Turn, cons_some, forward, round, pump}

module _ (J : Json) (N : Nostr J) (id client_sub : Text) where
  open J use {Value, string, array, parse_array}
  open N use {Event, event_json}

  abbrev pub Goes : Text → Type 0
  Goes c = Frame J (codes "EVENT") client_sub c ⊎ Frame J (codes "EOSE") client_sub c

  abbrev pub Orderly : List Text → Type 0
  Orderly [] = Unit
  Orderly (c ∷ []) = Goes c ⊎ Frame J (codes "CLOSED") client_sub c
  Orderly (c ∷ d ∷ cs) = Goes c × Orderly (d ∷ cs)

  forward-Goes :
      (t : Turn Event) (o : Option Forward) (c : Text)
      → ((f : Forward) → o ≡ some f → IsFrame J client_sub f)
      → (forward J N id client_sub t o).0 ≡ some c
      → ((forward J N id client_sub t o).1 ≡ false → Goes c)
        × (Goes c ⊎ Frame J (codes "CLOSED") client_sub c)
  unfolding forward
  forward-Goes t none c k h = cc
  forward-Goes t (some (continue d)) c k h =
      let e : d ≡ c = some-injective d c h in
      let g : Goes c = subst Goes e (k (continue d) refl) in (λ _. g, inl g)
  forward-Goes t (some (stop d)) c k h =
      let e : d ≡ c = some-injective d c h in
      (λ z. cc, inr (subst (Frame J (codes "CLOSED") client_sub) e (k (stop d) refl)))

  round-Goes :
      HasTexts J
      → (t : Turn Event) (w : Wake Event) (c : Text) → (round J N id client_sub t w).0 ≡ some c
      → ((round J N id client_sub t w).1 ≡ false → Goes c)
        × (Goes c ⊎ Frame J (codes "CLOSED") client_sub c)
  unfolding round
  round-Goes L t (notified n) c h =
      forward-Goes t (map_notification J N n id client_sub) c
        (map_notification-IsFrame J N id client_sub L n) h
  round-Goes L t lagged c h = cc
  round-Goes L t Wake.closed c h = cc
  round-Goes L t poll c h = cc

  Orderly-cons : (c : Text) (cs : List Text) → Goes c → Orderly cs → Orderly (c ∷ cs)
  Orderly-cons c [] g h = inl g
  Orderly-cons c (d ∷ cs) g h = (g, h)

  -- One round in front of an orderly rest.
  cons_some-Orderly :
      (o : Option Text) (b : Bool) (cs : List Text)
      → ((c : Text)
          → o ≡ some c
          → (b ≡ false → Goes c) × (Goes c ⊎ Frame J (codes "CLOSED") client_sub c))
      → Orderly cs
      → Orderly (if b then cons_some o [] else cons_some o cs)
  cons_some-Orderly none true cs k h = tt
  cons_some-Orderly none false cs k h = h
  cons_some-Orderly (some c) true cs k h = (k c refl).1
  cons_some-Orderly (some c) false cs k h = Orderly-cons c cs ((k c refl).0 refl) h

  pump-cons :
      (t : Turn Event) (ts : List (Turn Event))
      → (pump J N id client_sub (t ∷ ts)).0 ≡ (
          if (round J N id client_sub t t.wake).1
          then cons_some (round J N id client_sub t t.wake).0 []
          else cons_some (round J N id client_sub t t.wake).0 (pump J N id client_sub ts).0)
  unfolding pump
  pump-cons t ts = elim (Bool-cases (round J N id client_sub t t.wake).1) [
    | inl e ↦ rw e
    | inr n ↦ rw n
  ]

  -- Every chunk written is an EVENT, EOSE or CLOSED array under the id that the client chose, and
  -- nothing is written after a CLOSED.
  pub pump-Orderly : HasTexts J → (ts : List (Turn Event)) → Orderly (pump J N id client_sub ts).0
  unfolding pump
  pump-Orderly L [] = tt
  pump-Orderly L (t ∷ ts) = rw (pump-cons t ts) (
      cons_some-Orderly (round J N id client_sub t t.wake).0 (round J N id client_sub t t.wake).1
        (pump J N id client_sub ts).0 (round-Goes L t t.wake) (pump-Orderly L ts))

  -- The array that NIP-01 has for a message, under the client's id.
  abbrev pub values_of : RelayMessage Event → List Value
  values_of (event sid e) = string (codes "EVENT") ∷ string client_sub ∷ event_json e ∷ []
  values_of (end_of_stored_events sid) = string (codes "EOSE") ∷ string client_sub ∷ []
  values_of (closed sid reason) = string (codes "CLOSED") ∷ string client_sub ∷ string reason ∷ []
  values_of other = []

  abbrev pub is_about : Option Text → Bool
  is_about none = false
  is_about (some sid) = sid == id

  abbrev pub arrays_of : Wake Event → List (List Value) → List (List Value)
  arrays_of (notified (message url m)) rest =
      if is_about (about m) then values_of m ∷ rest else rest
  arrays_of _ rest = rest

  -- The messages of the stream, in the order of arrival.
  abbrev pub expected : List (Turn Event) → List (List Value)
  expected [] = []
  expected (t ∷ ts) = arrays_of t.wake (expected ts)

  parse_branch :
      HasTexts J
      → (t : Turn Event) (b : Bool) (vs : List Value) (cs : List Text) (rest : List (List Value))
      → map parse_array cs ≡ map some rest
      → map parse_array (
          cons_some
            (forward J N id client_sub t
              (if b then some (continue (chunk J (array vs))) else none)).0
            cs)
        ≡ map some (if b then vs ∷ rest else rest)
  unfolding forward
  parse_branch L t true vs cs rest k = ap₂ ◌∷◌ (parse_array-chunk J L vs) k
  parse_branch L t false vs cs rest k = k

  parse_round :
      HasTexts J
      → (t : Turn Event) (w : Wake Event) (cs : List Text) (rest : List (List Value))
      → ¬ Ending J N id client_sub t w
      → map parse_array cs ≡ map some rest
      → map parse_array (cons_some (round J N id client_sub t w).0 cs) ≡ map some (arrays_of w rest)
  unfolding round map_notification
  parse_round L t (notified (message url (event sid e))) cs rest h k =
      parse_branch L t (sid == id) _ cs rest k
  parse_round L t (notified (message url (end_of_stored_events sid))) cs rest h k =
      parse_branch L t (sid == id) _ cs rest k
  parse_round L t (notified (message url (closed sid reason))) cs rest h k =
      elim (Bool-cases (sid == id)) [ inl e ↦ absurd (h ((==_iff sid id).0 e)) | inr n ↦ rw n k ]
  parse_round L t (notified (message url other)) cs rest h k = k
  parse_round L t (notified shutdown) cs rest h k = absurd (h tt)
  parse_round L t (notified other) cs rest h k = k
  parse_round L t lagged cs rest h k = k
  parse_round L t Wake.closed cs rest h k = absurd (h tt)
  parse_round L t poll cs rest h k = k

  -- As long as the stream goes on, its chunks are the arrays of the subscription's own messages,
  -- none left out, none added, in the order of arrival.
  pub map-parse_array-pump :
      HasTexts J
      → (ts : List (Turn Event)) → All (λ t. ¬ Ending J N id client_sub t t.wake) ts
      → map parse_array (pump J N id client_sub ts).0 ≡ map some (expected ts)
  unfolding pump
  map-parse_array-pump L [] h = refl
  map-parse_array-pump L (t ∷ ts) (h, hs) = elim (Bool-cases (round J N id client_sub t t.wake).1) [
    | inl e ↦ absurd (h ((round_iff J N id client_sub t t.wake).0 e))
    | inr n ↦
        rw (pump-cons t ts, n)
          (parse_round L t t.wake (pump J N id client_sub ts).0 (expected ts) h
            (map-parse_array-pump L ts hs))
  ]
