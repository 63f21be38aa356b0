-- ===== src/Shim/Startup.antt =====
-- `main` of crates/outlay-shim/src/main.rs, with `spawn` of relay.rs and `AppState::new` of server.rs:
-- from the environment to the state that the routes are served with. Logging and signals are left
-- out.
pub mod Serves
use outlay.Base.{
  ℕ, ◌≤◌, ◌<◌, Bool, true, false, Option, some, none, List, [], ◌≡◌, ◌≢◌, ◌↔◌, refl, ap, sym, ◌∙◌,
  inl, inr, arith, if◌then◌else◌, eqb, eqb_iff, Bool-cases,
}
use outlay.Base.Res.{Result, ok, err, Result-cases}
use outlay.Base.Text.{Text}
use outlay.Env.{Env}
use outlay.Json.{Json}
use outlay.Relay.Bind.{BindError, bind_with_port_scan}
use outlay.Relay.Scan.{Busy, IsScan, bind_with_port_scan-IsScan}
use outlay.Relay.Spawn.{Host, Effect, SpawnError, BundledRelay, relay_of, bound, spawn_memoryless}
use outlay.Shim.Config.{ShimConfig, ConfigError, read_shim_config}
use outlay.Shim.Config.Usable.{read_shim_config-IsUsable}
use outlay.Shim.Path.{Keys}
use outlay.Shim.Server.{Request, piped, root_handler, root_handler-piped}
use outlay.Shim.Urls.{public_url}
use outlay.Startup.{https_url}

-- The `TransportCache` is new: its capacity and its loopback URL.
pub record AppState : Type 0 where
  pub config : ShimConfig
  pub capacity : ℕ
  pub loopback_url : Option Text
  pub relay_url : Option Text

-- `NonZeroUsize::new`
unfoldable pub non_zero : ℕ → Option ℕ
non_zero n = if eqb n 0 then none else some n

unfoldable pub with_capacity : ShimConfig → Option Text → Option ℕ → Option AppState
with_capacity cfg relay_url none = none
with_capacity cfg relay_url (some cap) =
    some (record { config = cfg; capacity = cap; loopback_url = relay_url; relay_url = relay_url })

-- `AppState::new`: none is the panic of its `expect`.
unfoldable pub new_app_state : ShimConfig → Option Text → Option AppState
unfolding non_zero with_capacity
new_app_state cfg relay_url = with_capacity cfg relay_url (non_zero cfg.max_cached_outlays)

-- How the start ends: before the server, or in it, with the page that is announced.
pub data Started : Type 0 where
  bad_config : ConfigError → Started
  panics : Started
  cannot_listen : Text → Started
  serves : AppState → Option Text → Started

unfoldable pub url_of : Result SpawnError BundledRelay → Option Text
url_of (ok handle) = some handle.url
url_of (err e) = none

unfoldable pub public_page : ShimConfig → Option Text
public_page cfg = elim (public_url cfg.public_urls cfg.relay_urls) [
  | none ↦ none
  | some url ↦ some (https_url url)
]

unfoldable pub listened : ShimConfig → AppState → Result Text (Unit {0}) → Started
unfolding public_page
listened cfg app (ok _) = serves app (public_page cfg)
listened cfg app (err e) = cannot_listen e

module _ (H : Host) (listen : Text → Result Text (Unit {0})) where
  -- `relay::spawn`, where the relay is enabled: what it tried, and the URL of its handle.
  unfoldable pub relay_handle : Bool → List Effect × Option Text
  unfolding url_of
  relay_handle false = ([], none)
  relay_handle true = let r = spawn_memoryless H 0 in (r.0, url_of r.1)

  unfoldable pub served : ShimConfig → Option AppState → Started
  unfolding listened
  served cfg none = panics
  served cfg (some app) = listened cfg app (listen cfg.listen_addr)

  unfoldable pub configured : Result ConfigError ShimConfig → List Effect × Started
  unfolding relay_handle new_app_state served
  configured (err e) = ([], bad_config e)
  configured (ok cfg) =
      let r = relay_handle cfg.enable_relay in (r.0, served cfg (new_app_state cfg r.1))

  unfoldable pub main : Env → List Effect × Started
  unfolding configured
  main env = configured (read_shim_config env)
