-- ===== src/Proxy/Chunks.antt =====
-- The chunks of `map_notification` (crates/outlay/src/proxy.rs): which notifications give one, and
-- that each names the client's own subscription.
use outlay.Base.{
  Bool, true, false, Option, some, none, List, ◌∷◌, ◌≡◌, ◌↔◌, ◌⊎◌, inl, inr, arith, if◌then◌else◌,
}
use mathlib.Core.Path.{subst}
use mathlib.Core.Option.{some-injective}
use outlay.Base.Text.{Text, codes, ◌==◌, ==_iff}
use outlay.Json.{Json}
use outlay.Json.Laws.{HasTexts}
use outlay.Nostr.{
  Nostr, RelayMessage, event, end_of_stored_events, closed, other, Notification, message, shutdown,
}
use outlay.Proxy.{Forward, continue, stop, chunk, map_message, map_notification}

-- The subscription that a relay message is about.
abbrev pub about : {E : Type 0} → RelayMessage E → Option Text
about (event sid e) = some sid
about (end_of_stored_events sid) = some sid
about (closed sid reason) = some sid
about other = none

-- What a stream on `upstream_id` has to react to: a message about it, or the end of the pool.
abbrev pub Concerns : {E : Type 0} → Text → Notification E → Type 0
Concerns upstream_id (message url m) = about m ≡ some upstream_id
Concerns upstream_id shutdown = Unit
Concerns upstream_id other = ⊥

abbrev pub text_of : Forward → Text
text_of (continue c) = c
text_of (stop c) = c

abbrev pub is_stop : Forward → Bool
is_stop (continue c) = false
is_stop (stop c) = true

module _ (J : Json) where
  open J use {Value, string, array, parse_array}

  -- A NIP-01 array for the subscription, behind a tag.
  abbrev pub Frame : Text → Text → Text → Type 0
  Frame tag client_sub c =
      (rest : List Value) × (parse_array c ≡ some (string tag ∷ string client_sub ∷ rest))

  pub parse_array-chunk :
      HasTexts J → (vs : List Value) → parse_array (chunk J (array vs)) ≡ some vs
  unfolding chunk
  parse_array-chunk L vs = rw (L.to_string-display) (L.parse_array-display vs)

  -- The tag says whether the stream goes on.
  abbrev pub IsFrame : Text → Forward → Type 0
  IsFrame client_sub (continue c) =
      Frame (codes "EVENT") client_sub c ⊎ Frame (codes "EOSE") client_sub c
  IsFrame client_sub (stop c) = Frame (codes "CLOSED") client_sub c

  module _ (N : Nostr J) (upstream_id client_sub : Text) where
    open N use {Event}

    -- To read a frame off the branch that was taken.
    from_branch :
        (b : Bool) (g f : Forward)
        → (if b then some g else none) ≡ some f
        → IsFrame client_sub g
        → IsFrame client_sub f
    from_branch true g f h k = subst (IsFrame client_sub) (some-injective g f h) k
    from_branch false g f h k = cc

    map_message-IsFrame :
        HasTexts J
        → (m : RelayMessage Event) (f : Forward) → map_message J N m upstream_id client_sub ≡ some f
        → IsFrame client_sub f
    unfolding map_message
    map_message-IsFrame L (event sid e) f h =
        from_branch (sid == upstream_id) _ f h (inl (_, parse_array-chunk L _))
    map_message-IsFrame L (end_of_stored_events sid) f h =
        from_branch (sid == upstream_id) _ f h (inr (_, parse_array-chunk L _))
    map_message-IsFrame L (closed sid reason) f h =
        from_branch (sid == upstream_id) _ f h (_, parse_array-chunk L _)
    map_message-IsFrame L other f h = cc

    pub map_notification-IsFrame :
        HasTexts J
        → (n : Notification Event) (f : Forward)
        → map_notification J N n upstream_id client_sub ≡ some f
        → IsFrame client_sub f
    unfolding map_notification
    map_notification-IsFrame L (message url m) f h = map_message-IsFrame L m f h
    map_notification-IsFrame L shutdown f h = from_branch true _ f h (_, parse_array-chunk L _)
    map_notification-IsFrame L other f h = cc

    -- A notification gives no chunk exactly when it does not concern the stream.
    pub map_notification-eq-none_iff :
        (n : Notification Event)
        → (map_notification J N n upstream_id client_sub ≡ none) ↔ (¬ Concerns upstream_id n)
    unfolding map_notification map_message
    map_notification-eq-none_iff (message url (event sid e)) =
        ground (arith, ==_iff sid upstream_id)
    map_notification-eq-none_iff (message url (end_of_stored_events sid)) =
        ground (arith, ==_iff sid upstream_id)
    map_notification-eq-none_iff (message url (closed sid reason)) =
        ground (arith, ==_iff sid upstream_id)
    map_notification-eq-none_iff (message url other) = ground arith
    map_notification-eq-none_iff shutdown = ground arith
    map_notification-eq-none_iff other = ground arith
