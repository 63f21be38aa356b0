-- ===== src/Startup/Main.antt =====
-- `main` of crates/outlay/src/main.rs, with `Proxy::new` of crates/outlay/src/proxy.rs: the steps
-- from the configuration to the end of the service. The signer, the relay pool, the HTTP client and
-- the ContextVM transport are not part of the repository: their answers are parameters.
pub mod Script
pub mod Panics
use outlay.Base.{
  ℕ, Bool, true, false, Option, some, none, List, [], ◌∷◌, ◌++◌, ◌≡◌, ◌≢◌, ◌⊎◌, refl, ap, sym, ◌∙◌,
  inl, inr, map,
}
use mathlib.Core.Path.{subst}
use outlay.Base.Res.{Result, ok, err, map_err}
use outlay.Base.Traced.{Traced, ◌>>=◌, >>=-of-ok, >>=-of-err, step, pure, bind-avoids}
use outlay.Base.Text.{Text, codes}
use outlay.Config.{ServerConfig, BundledConfig, ConfigError, read_server_config}
use outlay.Env.{Env}
use outlay.Proxy.{ProxyError, init, connect}
use outlay.Relay.Spawn.{Host, Backend, Effect, SpawnError, BundledRelay, spawn}
use outlay.Startup.{
  Upstream, proxies, fails, panics, backend_of, upstream_url, upstream_url-ne_panics,
}
use outlay.Startup.Banner.{TransportConfig, build_transport_config, banner}

pub record Deployment : Type 0 where
  pub host : Host
  -- `signer::from_sk` and `signer::generate`, as the public key of the signer in hex
  pub from_sk : Text → Result Text Text
  pub generate : Text
  -- `RelayPool::new`, its `connect`, and the build of the HTTP client
  pub new_pool : Result Text (Unit {0})
  pub connect_pool : Text → Result Text (Unit {0})
  pub build_http : Result Text (Unit {0})
  -- `NostrServerTransport::new`, and `serve`
  pub open_transport : TransportConfig → Result Text (Unit {0})
  pub serve : Result Text (Unit {0})

pub data Action : Type 0 where
  on_host : Effect → Action
  new_pool build_http : Action
  connect_pool : Text → Action
  print : List Text → Action
  open_transport : TransportConfig → Action
  serve : Action
  -- `BundledRelay::shutdown`
  shutdown : Action

pub data MainError : Type 0 where
  config : ConfigError → MainError
  private_key : Text → MainError
  bundled : SpawnError → MainError
  -- `.expect("external upstream")`
  panic : MainError
  -- "connecting upstream relay", with its URL
  upstream : Text → ProxyError → MainError
  transport : Text → MainError
  service : Text → MainError

abbrev pub wrap {ℓ} :
    {E : Type 0} {A : Type ℓ} → (E → MainError) → Traced Action E A → Traced Action MainError A
wrap f (done, r) = (done, map_err f r)

unfoldable pub url_of : Result SpawnError BundledRelay → Result SpawnError Text
url_of (ok handle) = ok handle.url
url_of (err e) = err e

-- A URL that is set leaves the bundled relay out.
unfoldable pub spawn_actions : Host → Option Text → Option BundledConfig → List Action
spawn_actions host (some url) b = []
spawn_actions host none none = []
spawn_actions host none (some b) =
    map on_host (spawn host (backend_of b.backend) (some b.db_path) b.port).0

unfoldable pub chosen : Upstream → Result MainError Text
chosen (proxies url) = ok url
chosen (fails e) = err (bundled e)
chosen panics = err panic

-- `if let Some(b) = &bundled_relay`
unfoldable pub shutdown_actions : Option Text → Option BundledConfig → List Action
shutdown_actions none (some b) = shutdown ∷ []
shutdown_actions none none = []
shutdown_actions (some url) b = []

module _ (D : Deployment) where
  unfoldable pub public_key : Option Text → Result MainError Text
  public_key (some hex) = map_err private_key (D.from_sk hex)
  public_key none = ok D.generate

  unfoldable pub open_upstream : ServerConfig → Traced Action MainError Text
  unfolding url_of spawn_actions chosen
  open_upstream cfg = (
    spawn_actions D.host cfg.proxy_relay_url cfg.bundled,
    chosen
        (upstream_url cfg (λ backend path port. url_of (spawn D.host backend (some path) port).1)),
  )

  -- `Proxy::new`
  unfoldable pub new_proxy : Text → Traced Action ProxyError (Unit {0})
  new_proxy upstream_url = do
    _ ← step new_pool (map_err init D.new_pool)
    _ ← step (connect_pool upstream_url) (map_err connect (D.connect_pool upstream_url))
    step build_http (map_err (λ e. init (codes "http client: " ++ e)) D.build_http)

  unfoldable pub serve_until : ServerConfig → Traced Action MainError (Unit {0})
  unfolding shutdown_actions
  serve_until cfg = do
    _ ← step serve (map_err service D.serve)
    (shutdown_actions cfg.proxy_relay_url cfg.bundled, ok tt)

  unfoldable pub open_service : ServerConfig → Traced Action MainError (Unit {0})
  unfolding build_transport_config serve_until
  open_service cfg = do
    _ ←
        step (open_transport (build_transport_config cfg))
          (map_err transport (D.open_transport (build_transport_config cfg)))
    serve_until cfg

  unfoldable pub announce : ServerConfig → Text → Text → Traced Action MainError (Unit {0})
  unfolding banner open_service
  announce cfg server_pubkey url = do
    _ ← step (print (banner server_pubkey cfg url)) (ok (tt {0}))
    open_service cfg

  -- What follows once the upstream is known: the proxy, the banner, the transport and the service.
  unfoldable pub run_service : ServerConfig → Text → Text → Traced Action MainError (Unit {0})
  unfolding new_proxy announce
  run_service cfg server_pubkey url = do
    _ ← wrap (upstream url) (new_proxy url)
    announce cfg server_pubkey url

  unfoldable pub with_key : ServerConfig → Text → Traced Action MainError (Unit {0})
  unfolding open_upstream run_service
  with_key cfg server_pubkey = do url ← open_upstream cfg; run_service cfg server_pubkey url

  unfoldable pub with_config : ServerConfig → Traced Action MainError (Unit {0})
  unfolding public_key with_key
  with_config cfg = do
    server_pubkey ← pure (public_key cfg.private_key_hex)
    with_key cfg server_pubkey

  unfoldable pub main : Bool → Env → Traced Action MainError (Unit {0})
  unfolding with_config
  main bundled_relay env = do
    cfg ← pure (map_err config (read_server_config bundled_relay env))
    with_config cfg
