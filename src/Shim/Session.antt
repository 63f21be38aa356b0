-- ===== src/Shim/Session.antt =====
-- `handle_ws` of crates/outlay-shim/src/conn.rs as a whole: the path, the transport, then the frame
-- loop, whose tasks are spawned with clones of the peer and the handle of that transport;
-- `close_with_notice` ends a connection that has no server.
pub mod Reaches
use outlay.Base.{ℕ, List, [], ◌∷◌, ◌++◌, ◌≡◌, ◌↔◌, refl, sym, ◌∙◌, ap, inl, inr, map, All}
use outlay.Base.Res.{Result, ok, err, Result-cases}
use outlay.Base.Text.{Text, codes}
use outlay.Json.{Json}
use outlay.Shim.Conn.{Inbound, Effect, spawn_subscribe, spawn_publish, handle_frames}
use outlay.Shim.Path.{Keys, ParsedPath, PathError, path_error_text, parse_path}
use outlay.Shim.Translate.{notice_frame}

-- What the frame loop does, with the peer and handle that `subscribe_loop` and `publish_once` are
-- given.
pub data Work (J : Json) (Peer : Type 0) : Type 0 where
  cancel : ℕ → Work J Peer
  subscribe_loop : Peer → ℕ → Text → List J.Value → Work J Peer
  publish_once : Peer → J.Value → Work J Peer
  send : Text → Work J Peer

-- A connection is closed after one frame, or its frames are served.
pub data Session (J : Json) (Peer : Type 0) : Type 0 where
  closed_with : Text → Session J Peer
  served : List (Work J Peer) → Session J Peer

module _ (J : Json) {Peer : Type 0} where
  -- `peer.clone()` and `handle.clone()`
  unfoldable pub hand : Peer → Effect J → Work J Peer
  hand peer (Effect.cancel n) = cancel n
  hand peer (spawn_subscribe n sub_id filters) = subscribe_loop peer n sub_id filters
  hand peer (spawn_publish event) = publish_once peer event
  hand peer (Effect.send text) = send text

  -- The work without its peer, and what is known of the peer.
  unfoldable pub effect : Work J Peer → Effect J
  effect (cancel n) = Effect.cancel n
  effect (subscribe_loop peer n sub_id filters) = spawn_subscribe n sub_id filters
  effect (publish_once peer event) = spawn_publish event
  effect (send text) = Effect.send text

  unfoldable pub IsOver : (Peer → Type 0) → Work J Peer → Type 0
  IsOver P (cancel n) = Unit
  IsOver P (subscribe_loop peer n sub_id filters) = P peer
  IsOver P (publish_once peer event) = P peer
  IsOver P (send text) = Unit

  effect-hand : (peer : Peer) (e : Effect J) → effect (hand peer e) ≡ e
  unfolding effect hand
  effect-hand peer (Effect.cancel n) = refl
  effect-hand peer (spawn_subscribe n sub_id filters) = refl
  effect-hand peer (spawn_publish event) = refl
  effect-hand peer (Effect.send text) = refl

  pub map-effect-hand : (peer : Peer) (es : List (Effect J)) → map effect (map (hand peer) es) ≡ es
  map-effect-hand peer [] = refl
  map-effect-hand peer (e ∷ es) = rw (effect-hand peer e, map-effect-hand peer es) refl

  hand-IsOver : (P : Peer → Type 0) (peer : Peer) → P peer → (e : Effect J) → IsOver P (hand peer e)
  unfolding IsOver hand
  hand-IsOver P peer h (Effect.cancel n) = tt
  hand-IsOver P peer h (spawn_subscribe n sub_id filters) = h
  hand-IsOver P peer h (spawn_publish event) = h
  hand-IsOver P peer h (Effect.send text) = tt

  pub All-hand :
      (P : Peer → Type 0) (peer : Peer)
      → P peer
      → (es : List (Effect J)) → All (IsOver P) (map (hand peer) es)
  All-hand P peer h [] = tt
  All-hand P peer h (e ∷ es) = (hand-IsOver P peer h e, All-hand P peer h es)

module _ (K : Keys) (J : Json) where
  unfoldable pub close_with_notice : {Peer : Type 0} → Text → Session J Peer
  close_with_notice msg = closed_with (notice_frame J (codes "error: " ++ msg))

  module _ {Peer : Type 0} (get : ParsedPath → Result Text Peer) where
    unfoldable pub with_transport : Result Text Peer → List Inbound → Session J Peer
    unfolding close_with_notice
    with_transport (ok peer) frames = served (map (hand J peer) (handle_frames J frames))
    with_transport (err e) frames = close_with_notice e

    unfoldable pub with_path : Result PathError ParsedPath → List Inbound → Session J Peer
    unfolding with_transport close_with_notice
    with_path (ok parsed) frames = with_transport (get parsed) frames
    with_path (err e) frames = close_with_notice (path_error_text e)

    unfoldable pub handle_ws : Text → List Inbound → Session J Peer
    unfolding with_path
    handle_ws pubkey frames = with_path (parse_path K pubkey) frames

    -- The frames of a connection are served exactly when its path names a server to which there is a
    -- transport, and then each task of it has that transport; otherwise no frame of it has any effect.
    pub handle_ws-served_iff :
        (pubkey : Text) (frames : List Inbound) (work : List (Work J Peer))
        → (handle_ws pubkey frames ≡ served work) ↔ (
            (p : ParsedPath) × (peer : Peer) × (parse_path K pubkey ≡ ok p)
            × (get p ≡ ok peer)
            × (work ≡ map (hand J peer) (handle_frames J frames)))
    unfolding handle_ws with_path with_transport close_with_notice
    handle_ws-served_iff pubkey frames work = elim (Result-cases (parse_path K pubkey)) [
      | inr (e, h) ↦ rw h (λ q. cc, λ (p, peer, k, g, f). cc)
      | inl (p, h) ↦ elim (Result-cases (get p)) [
        | inr (e, g) ↦ rw (h, g) (λ q. cc, λ (p', peer, k, f, u). cc (k, f, g))
        | inl (peer, g) ↦
            rw (h, g)
              (
                λ q. (p, peer, refl, g, cc),
                λ (p', peer', k, f, u).
                    let same : peer ≡ peer' = cc (k, f, g) in
                    ap (λ x. served (map (hand J x) (handle_frames J frames))) same
                    ∙ ap served (sym u),
              )
      ]
    ]
