-- ===== src/Tests/Starts.antt =====
-- The starts of both programs and of the bundled relay: the theorems at concrete inputs.
use outlay.Base.{
  true, false, Option, some, none, [], ◌++◌, ◌≡◌, ◌≢◌, ◌↔◌, refl, arith, leb, if◌then◌else◌,
}
use outlay.Base.Res.{Result, ok, err}
use outlay.Base.Text.{Text, codes, ◌==◌}
use outlay.Config.{server_config, bundled_config}
use outlay.Relay.Bind.{bind_with_port_scan, scan, plan, checked_add}
use outlay.Relay.Ports
use outlay.Relay.Spawn.{memoryless, Host, spawn, spawn_memoryless, relay_of, bound, ensure_parent}
use outlay.Relay.Spawn.Order
use outlay.Env.{opt_string, number}
use outlay.Shim.Config.{ShimConfig, shim_config, read_shim_config}
use outlay.Shim.Server.{root_handler}
use outlay.Shim.Startup
use outlay.Shim.Startup.Serves
use outlay.Startup.{backend_of}
use outlay.Startup.Main
use outlay.Startup.Main.Script
use outlay.Startup.Main.Panics
use outlay.Tests.Wire.{wire}
use outlay.Tests.Upstream.{read_config, announced}
use outlay.Tests.Upstream
use outlay.Tests.Routes.{config, settings, keys, upgrade}
use outlay.Tests.Routes

-- The first two ports of the range are busy; `data` is a directory that is not there.
abbrev host : Host
host = record {
  parent = λ path. if path == codes "data/relay.db" then some (codes "data") else some [];
  exists = λ dir. false;
  create_dir_all = λ dir. ok tt;
  open_sqlite = λ path. ok tt;
  run = λ db port. if leb port 8087 then err (codes "in use") else ok (codes "ws://127.0.0.1/");
}

bind_with_port_scan-InRange_example :
    Ports.InRange 65535 50 (bind_with_port_scan host.run memoryless 65535)
bind_with_port_scan-InRange_example =
    Ports.bind_with_port_scan-InRange host.run memoryless 65535 (omega arith)

abbrev path : Option Text
path = some (codes "data/relay.db")

-- Every address can be listened on.
abbrev listen : Text → Result Text (Unit {0})
listen address = ok tt

main-serves_iff_example :
    ((Startup.main host listen settings).1 ≢ Startup.panics)
    × ((state : Startup.AppState) (page : Option Text)
        → ((Startup.main host listen settings).1 ≡ Startup.serves state page) ↔ (
            (cfg : ShimConfig) × (read_shim_config settings ≡ ok cfg)
            × (listen cfg.listen_addr ≡ ok tt)
            × (state ≡ Serves.state_of host listen cfg)
            × (page ≡ Startup.public_page cfg)))
main-serves_iff_example = Serves.main-serves_iff host listen settings

abbrev state : Startup.AppState
state = Serves.state_of host listen config

serving : (Startup.main host listen settings).1 ≡ Startup.serves state (Startup.public_page config)
serving =
    ((Serves.main-serves_iff host listen settings).1 state (Startup.public_page config)).1
      (config, Routes.config_is_read, refl, refl, refl)

main-piped_example :
    (config.enable_relay ≡ true)
    × Serves.RunsAt host listen (codes "ws://127.0.0.1/")
    × (upgrade.upgrade ≡ true)
    × (upgrade.handshake ≡ ok tt)
    × (config.max_ws_message_bytes ≡ config.max_ws_message_bytes)
unfolding root_handler Startup.relay_handle spawn_memoryless bound bind_with_port_scan scan plan
    checked_add relay_of shim_config
main-piped_example =
    Serves.main-piped host listen keys wire (codes "1.0") settings state
      (Startup.public_page config) upgrade config.max_ws_message_bytes (codes "ws://127.0.0.1/")
      serving refl

abbrev deployment : Main.Deployment
deployment = record {
  host = host;
  from_sk = λ hex. err (codes "bad key");
  generate = codes "abcd";
  new_pool = ok tt;
  connect_pool = λ url. ok tt;
  build_http = ok tt;
  open_transport = λ c. err (codes "no relay");
  serve = ok tt;
}

main-run_stages_example : Main.main deployment true announced ≡ (
  Script.spawning deployment none (some (bundled_config announced))
      ++ (Script.run_stages
          (Script.stages deployment read_config (codes "abcd") (codes "ws://127.0.0.1/"))).0,
  (Script.run_stages
      (Script.stages deployment read_config (codes "abcd") (codes "ws://127.0.0.1/"))).1,
)
unfolding Main.public_key spawn ensure_parent bind_with_port_scan scan plan checked_add backend_of
    server_config opt_string ◌==◌ number
main-run_stages_example =
    Script.main-run_stages deployment true announced read_config (codes "abcd")
      (codes "ws://127.0.0.1/") Upstream.config_is_read refl refl
