-- ===== src/Shim/Server.antt =====
-- crates/outlay-shim/src/server.rs, with `serve_pubkey` and `fetch_nip11` of
-- crates/outlay-shim/src/nip11.rs: what each route answers. axum's handshake and the peer of a
-- transport are parameters.
use outlay.Base.{
  ℕ, Bool, true, Option, some, none, ◌++◌, ◌≡◌, ◌↔◌, refl, inl, inr, arith, Bool-cases,
  if◌then◌else◌,
}
use outlay.Base.Res.{Result, ok, err, ◌>>=◌, map_err, Result-cases}
use outlay.Base.Opt.{unwrap_or}
use outlay.Base.Text.{Text, codes}
use outlay.Json.{Json}
use outlay.Shim.Page.{Response, Accept, plain, render, serve_root, wants_json}
use outlay.Shim.Path.{Keys, ParsedPath, PathError, path_error_text, parse_path}
use outlay.Shim.Config.{ShimConfig}
use outlay.Shim.Urls.{public_url}

-- The request, as far as the code reads it: the `Accept` header, whether there is an `Upgrade`
-- header, and what `WebSocketUpgrade::from_request` makes of it.
pub record Request : Type 0 where
  pub accept : Accept
  pub upgrade : Bool
  pub handshake : Result Text (Unit {0})

-- What a route does: an HTTP response, or an upgrade with the limit on messages, to the pipe to a
-- relay or to the bridge of an identity.
pub data Served : Type 0 where
  http : Response → Served
  piped bridged : ℕ → Text → Served

unfoldable pub upgraded : Result Text (Unit {0}) → Served → Served
upgraded (ok _) served = served
upgraded (err rej) served = http (plain 400 rej)

unfoldable pub jumble_link : ShimConfig → Text → Option Text
jumble_link cfg hex = elim (public_url cfg.public_urls cfg.relay_urls) [
  | none ↦ none
  | some u ↦ some (u ++ codes "/" ++ hex)
]

module _ (K : Keys) (J : Json) where
  open J use {Value, null}

  -- A server's peer: the transport that the cache has for it, and its answer to a tool call.
  pub record Servers : Type 1 where
    pub Peer : Type 0
    pub get : ParsedPath → Result Text Peer
    -- the result's `structured_content`
    pub call_tool : Peer → Text → Result Text (Option Value)

  module _ (S : Servers) where
    open S use {Peer, get, call_tool}

    unfoldable pub fetch_nip11 : ParsedPath → Result Text Value
    fetch_nip11 parsed = do
      peer ← get parsed
      content ← map_err (λ e. codes "relay_info: " ++ e) (call_tool peer (codes "relay_info"))
      ok (unwrap_or content null)

    unfoldable pub answer_doc : ShimConfig → Accept → ParsedPath → Result Text Value → Response
    unfolding jumble_link
    answer_doc cfg accept parsed (ok doc) = render J doc accept (jumble_link cfg parsed.hex)
    answer_doc cfg accept parsed (err e) = plain 502 e

    unfoldable pub answer_path : ShimConfig → Accept → Result PathError ParsedPath → Response
    unfolding fetch_nip11 answer_doc
    answer_path cfg accept (ok parsed) = answer_doc cfg accept parsed (fetch_nip11 parsed)
    answer_path cfg accept (err e) = plain 400 (path_error_text e)

    unfoldable pub serve_pubkey : ShimConfig → Accept → Text → Response
    unfolding answer_path
    serve_pubkey cfg accept pubkey = answer_path cfg accept (parse_path K pubkey)

    unfoldable pub pubkey_handler : ShimConfig → Text → Request → Served
    unfolding serve_pubkey upgraded
    pubkey_handler cfg pubkey req =
        if req.upgrade
        then upgraded req.handshake (bridged cfg.max_ws_message_bytes pubkey)
        else http (serve_pubkey cfg req.accept pubkey)

    render-status :
        (doc : Value) (accept : Accept) (jumble : Option Text)
        → (render J doc accept jumble).status ≡ 200
    unfolding render
    render-status doc accept jumble = elim (Bool-cases (wants_json accept)) [
      | inl e ↦ rw e
      | inr e ↦ rw e
    ]

    -- An identity's document is fetched.
    abbrev pub Fetches : Text → Type 0
    Fetches pubkey =
        (p : ParsedPath) × (doc : Value) × (parse_path K pubkey ≡ ok p) × (fetch_nip11 p ≡ ok doc)

    -- A request for an identity's document is answered 200 just when its segment names a server and
    -- the document was fetched from that server.
    pub serve_pubkey-status_iff :
        (cfg : ShimConfig) (accept : Accept) (pubkey : Text)
        → ((serve_pubkey cfg accept pubkey).status ≡ 200) ↔ Fetches pubkey
    unfolding serve_pubkey answer_path answer_doc plain
    serve_pubkey-status_iff cfg accept pubkey = elim (Result-cases (parse_path K pubkey)) [
      | inr (e, h) ↦ rw h (λ q. absurd (omega (arith, q)), λ (p, doc, k, g). cc)
      | inl (p, h) ↦ elim (Result-cases (fetch_nip11 p)) [
        | inr (e, g) ↦ rw (h, g) (λ q. absurd (omega (arith, q)), λ (p', doc, k, f). cc (k, f, g))
        | inl (doc, g) ↦
            rw (h, g)
              (λ q. (p, doc, refl, g), λ f. render-status doc accept (jumble_link cfg p.hex))
      ]
    ]

  -- `relay_url` is the colocated relay's, where that is on.
  unfoldable pub root_handler : Text → ShimConfig → Option Text → Request → Served
  unfolding upgraded
  root_handler version cfg none req = http (serve_root J version req.accept)
  root_handler version cfg (some relay_url) req =
      if req.upgrade
      then upgraded req.handshake (piped cfg.max_ws_message_bytes relay_url)
      else http (serve_root J version req.accept)

  upgraded-piped :
      (r : Result Text (Unit {0})) (n m : ℕ) (url u : Text)
      → upgraded r (piped n url) ≡ piped m u
      → (r ≡ ok tt) × (m ≡ n) × (u ≡ url)
  unfolding upgraded
  upgraded-piped (ok tt) n m url u h = ground arith
  upgraded-piped (err e) n m url u h = cc

  -- The root pipes to a relay only where the colocated one is on, the request asks for an upgrade and
  -- the handshake succeeds, and then to that relay, under the configured limit.
  pub root_handler-piped :
      (version : Text) (cfg : ShimConfig) (relay_url : Option Text) (req : Request) (m : ℕ)
      (u : Text)
      → root_handler version cfg relay_url req ≡ piped m u
      → (relay_url ≡ some u)
        × (req.upgrade ≡ true)
        × (req.handshake ≡ ok tt)
        × (m ≡ cfg.max_ws_message_bytes)
  unfolding root_handler
  root_handler-piped version cfg none req m u h = cc
  root_handler-piped version cfg (some url) req m u h = elim (Bool-cases req.upgrade) [
    | inl e ↦ ground (arith, upgraded-piped req.handshake cfg.max_ws_message_bytes m url u)
    | inr e ↦ ground arith
  ]
