-- ===== src/Proxy/Info.antt =====
-- The NIP-11 document of crates/outlay/src/proxy.rs: `overlay_proxy_info`,
-- `synthesized_proxy_info` and `Proxy::relay_info`. The HTTP client is a parameter: what a GET on an
-- origin comes to. An outer `none` stands for the panic of `expect`.
use outlay.Base.{Bool, true, false, not, Option, some, none, [], ◌∷◌, ◌++◌, if◌then◌else◌}
use outlay.Base.Opt.{◌>>=◌}
use outlay.Base.Res.{Result, ok, err}
use outlay.Base.Text.{Text, codes}
use outlay.Json.{Json}
use outlay.Proxy.{ProxyError, relay_info}
use outlay.Proxy.Origin.{nip11_origin}

module _ (J : Json) where
  -- A response: whether its status is a success, and its body as JSON, if it is.
  pub record Response : Type 0 where
    pub is_success : Bool
    pub json : Option J.Value

module _ (J : Json) (version : Text) where
  open J use {
    Value, Map, string, number, boolean, array, object, as_object, empty, insert, find, remove,
    is_empty,
  }

  -- `if let Some(v) = obj.remove(key) { upstream.insert(key, v); }`
  unfoldable pub move_to : Text → Option Value → Map → Map
  move_to key none upstream = upstream
  move_to key (some v) upstream = insert key v upstream

  unfoldable pub stamp : Map → Map
  stamp obj = insert (codes "proxy") (boolean true) (
      insert (codes "version") (string version)
        (insert (codes "software") (string (codes "outlay")) obj))

  -- The identity of the upstream, moved out of the document, and what is left of it.
  unfoldable pub upstream_identity : Map → Map
  unfolding move_to
  upstream_identity obj =
      let named = move_to (codes "software") (find (codes "software") obj) empty in
      move_to (codes "version") (find (codes "version") (remove (codes "software") obj)) named

  unfoldable pub without_identity : Map → Map
  without_identity obj = remove (codes "version") (remove (codes "software") obj)

  unfoldable pub attach : Map → Map → Map
  attach upstream obj =
      if not (is_empty upstream) then insert (codes "upstream") (object upstream) obj else obj

  -- The fields of the document, with the identity moved and outlay's stamped on top.
  unfoldable pub overlay_map : Map → Map
  unfolding upstream_identity without_identity attach stamp
  overlay_map obj = stamp (attach (upstream_identity obj) (without_identity obj))

  unfoldable pub overlay_proxy_info : Value → Option Value
  overlay_proxy_info doc = do obj ← as_object doc; some (object (overlay_map obj))

  unfoldable pub synthesized_map : Map
  synthesized_map = insert (codes "supported_nips") (array (number 1 ∷ [])) (
      insert (codes "proxy") (boolean true) (
        insert (codes "version") (string version)
          (insert (codes "software") (string (codes "outlay")) empty)))

  unfoldable pub synthesized_proxy_info : Value
  synthesized_proxy_info = object synthesized_map

  is_object : Value → Bool
  is_object doc = elim (as_object doc) [ none ↦ false | some m ↦ true ]

  unfoldable pub body_document : Bool → Option Value → Option Value
  unfolding is_object
  body_document true (some doc) =
      if is_object doc then overlay_proxy_info doc else some synthesized_proxy_info
  body_document is_success json = some synthesized_proxy_info

  -- A transport error falls back on the synthesized document.
  unfoldable pub document : Option (Response J) → Option Value
  unfolding body_document
  document none = some synthesized_proxy_info
  document (some resp) = body_document resp.is_success resp.json

  unfoldable pub run_relay_info :
      Text → (Text → Option (Response J)) → Option (Result ProxyError Value)
  run_relay_info upstream_url get = elim (nip11_origin upstream_url) [
    | none ↦
        some
          (err (relay_info (codes "upstream URL must be ws:// or wss://, got: " ++ upstream_url)))
    | some origin ↦ do doc ← document (get origin); some (ok doc)
  ]
