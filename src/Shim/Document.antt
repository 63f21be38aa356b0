-- ===== src/Shim/Document.antt =====
-- An identity's NIP-11 document from the upstream to the HTTP client: `relay_info` of
-- crates/outlay/src/proxy.rs and handler.rs, `fetch_nip11` and `serve_pubkey` of
-- crates/outlay-shim/src/nip11.rs together.
use outlay.Base.{Option, some, ◌≡◌}
use outlay.Base.Res.{ok}
use outlay.Base.Text.{Text, codes}
use outlay.Handler.{relay_info_tool, structured}
use outlay.Json.{Json}
use outlay.Json.Laws.{HasMaps}
use outlay.Proxy.Info.{Response, run_relay_info}
use outlay.Proxy.Origin.{nip11_origin}
use outlay.Proxy.RelayInfo.{AnswersTo, run_relay_info-AnswersTo}
use outlay.Shim.Config.{ShimConfig}
use outlay.Shim.Page.{Accept, render}
use outlay.Shim.Path.{Keys, ParsedPath, parse_path}
use outlay.Shim.Server.{Servers, jumble_link, fetch_nip11, serve_pubkey}

module _ (K : Keys) (J : Json) (M : HasMaps J) (S : Servers K J) (version : Text) where
  open J use {Value, Map, object}

  -- rmcp carries the structured content of a successful answer back to the caller.
  abbrev pub Carries : S.Peer → Text → (Text → Option (Response J)) → Type 0
  Carries peer upstream_url http =
      (v : Value)
      → relay_info_tool J version upstream_url http ≡ some (ok v)
      → S.call_tool peer (codes "relay_info") ≡ ok (some v)

  relay_info_tool_of_ok :
      (upstream_url : Text) (http : Text → Option (Response J)) (v : Value)
      → run_relay_info J version upstream_url http ≡ some (ok v)
      → relay_info_tool J version upstream_url http ≡ some (ok v)
  unfolding relay_info_tool structured
  relay_info_tool_of_ok upstream_url http v h = rw (h, relay_info_tool)

  fetch_nip11_of_served :
      (p : ParsedPath) (peer : S.Peer) (v : Value)
      → S.get p ≡ ok peer
      → S.call_tool peer (codes "relay_info") ≡ ok (some v)
      → fetch_nip11 K J S p ≡ ok v
  unfolding fetch_nip11
  fetch_nip11_of_served p peer v h k = rw (h, k)

  -- For a path that names a server to which there is a transport, and an upstream of that server with
  -- a WebSocket URL, the shim's page is made from outlay's overlay of the document that the upstream
  -- itself serves over HTTP, or from outlay's own if that one cannot be had.
  pub serve_pubkey-AnswersTo :
      (cfg : ShimConfig) (accept : Accept) (pubkey : Text) (p : ParsedPath) (peer : S.Peer)
      (upstream_url origin : Text) (http : Text → Option (Response J))
      → parse_path K pubkey ≡ ok p
      → S.get p ≡ ok peer
      → Carries peer upstream_url http
      → nip11_origin upstream_url ≡ some origin
      → (out : Map) × (serve_pubkey K J S cfg accept pubkey
          ≡ render J (object out) accept (jumble_link cfg p.hex))
        × AnswersTo J version M (http origin) out
  unfolding serve_pubkey
  serve_pubkey-AnswersTo cfg accept pubkey p peer upstream_url origin http h g carries o =
      let (out, e, a) = run_relay_info-AnswersTo J version M upstream_url origin http o in
      let called = carries (object out) (relay_info_tool_of_ok upstream_url http (object out) e) in
      (out, rw (h, serve_pubkey, fetch_nip11_of_served p peer (object out) g called), a)
