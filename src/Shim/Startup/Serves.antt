-- ===== src/Shim/Startup/Serves.antt =====
-- The start of crates/outlay-shim/src/main.rs: when the shim serves, and what its root is piped to.
use outlay.Base.{
  ℕ, ◌≤◌, ◌<◌, Bool, true, false, Option, some, ◌≡◌, ◌≢◌, ◌↔◌, refl, ap, sym, ◌∙◌, inl, inr, arith,
  eqb, eqb_iff, Bool-cases,
}
use outlay.Base.Res.{Result, ok, err, Result-cases}
use outlay.Base.Text.{Text}
use outlay.Env.{Env}
use outlay.Json.{Json}
use outlay.Relay.Bind.{BindError, bind_with_port_scan}
use outlay.Relay.Scan.{Busy, IsScan, bind_with_port_scan-IsScan}
use outlay.Relay.Spawn.{memoryless, Host, relay_of, bound, spawn_memoryless}
use outlay.Shim.Config.{ShimConfig, ConfigError, read_shim_config}
use outlay.Shim.Config.Usable.{read_shim_config-IsUsable}
use outlay.Shim.Path.{Keys}
use outlay.Shim.Server.{Request, piped, root_handler, root_handler-piped}
use outlay.Shim.Startup.{
  AppState, non_zero, with_capacity, new_app_state, bad_config, panics, cannot_listen, serves,
  url_of, public_page, listened, relay_handle, served, configured, main,
}

module _ (H : Host) (listen : Text → Result Text (Unit {0})) where
  -- The state of a configuration.
  abbrev pub state_of : ShimConfig → AppState
  state_of cfg = record {
    config = cfg;
    capacity = cfg.max_cached_outlays;
    loopback_url = (relay_handle H listen cfg.enable_relay).1;
    relay_url = (relay_handle H listen cfg.enable_relay).1;
  }

  -- The capacity of a configuration that was read is not zero.
  new_app_state_of_read :
      (env : Env) (cfg : ShimConfig)
      → read_shim_config env ≡ ok cfg
      → new_app_state cfg (relay_handle H listen cfg.enable_relay).1 ≡ some (state_of cfg)
  unfolding new_app_state non_zero with_capacity
  new_app_state_of_read env cfg h =
      let (low, _) = (read_shim_config-IsUsable env cfg h).capacity in
      elim (Bool-cases (eqb cfg.max_cached_outlays 0)) [
        | inl e ↦ absurd (omega (arith, (eqb_iff cfg.max_cached_outlays 0).0 e, low))
        | inr e ↦ rw e
      ]

  main_of_read :
      (env : Env) (cfg : ShimConfig)
      → read_shim_config env ≡ ok cfg
      → (main H listen env).1 ≡ listened cfg (state_of cfg) (listen cfg.listen_addr)
  unfolding main configured served
  main_of_read env cfg h = rw (h, new_app_state_of_read env cfg h)

  main_of_refused :
      (env : Env) (e : ConfigError)
      → read_shim_config env ≡ err e
      → (main H listen env).1 ≡ bad_config e
  unfolding main configured
  main_of_refused env e h = rw h

  main_of_listening :
      (env : Env) (cfg : ShimConfig)
      → read_shim_config env ≡ ok cfg
      → listen cfg.listen_addr ≡ ok tt
      → (main H listen env).1 ≡ serves (state_of cfg) (public_page cfg)
  unfolding listened
  main_of_listening env cfg h l = main_of_read env cfg h ∙ rw l

  main_of_deaf :
      (env : Env) (cfg : ShimConfig) (e : Text)
      → read_shim_config env ≡ ok cfg
      → listen cfg.listen_addr ≡ err e
      → (main H listen env).1 ≡ cannot_listen e
  unfolding listened
  main_of_deaf env cfg e h l = main_of_read env cfg h ∙ rw l

  -- The shim never panics at its start, and it serves exactly when its environment is accepted and its
  -- address can be listened on: a colocated relay that cannot be started does not stop it.
  pub main-serves_iff :
      (env : Env)
      → ((main H listen env).1 ≢ panics)
        × ((state : AppState) (page : Option Text)
            → ((main H listen env).1 ≡ serves state page) ↔ (
                (cfg : ShimConfig) × (read_shim_config env ≡ ok cfg)
                × (listen cfg.listen_addr ≡ ok tt)
                × (state ≡ state_of cfg)
                × (page ≡ public_page cfg)))
  main-serves_iff env = elim (Result-cases (read_shim_config env)) [
    | inr (e, h) ↦
        let m = main_of_refused env e h in
        (λ q. cc, λ state page. (λ q. cc, λ (cfg, g, l, s, p). cc (g, h)))
    | inl (cfg, h) ↦ elim (Result-cases (listen cfg.listen_addr)) [
      | inl (tt, l) ↦
          let m = main_of_listening env cfg h l in
          (
            λ q. cc,
            λ state page. (
              λ q. (cfg, h, l, cc, cc),
              λ (cfg', g, k, s, p). main_of_listening env cfg' g k ∙ rw (s, p),
            ),
          )
      | inr (e, l) ↦
          let m = main_of_deaf env cfg e h l in
          (
            λ q. cc,
            λ state page. (
              λ q. cc,
              λ (cfg', g, k, s, p).
                  let c : cfg' ≡ cfg = cc (g, h) in
                  absurd (cc (k, l, ap (λ x. listen x.listen_addr) c)),
            ),
          )
    ]
  ]

  -- The memoryless relay runs on the lowest free port of the range, with this URL.
  abbrev pub RunsAt : Text → Type 0
  RunsAt u =
      (port : ℕ) × (8086 ≤ port)
      × (port < 8136)
      × (H.run memoryless port ≡ ok u)
      × Busy (H.run memoryless) 8086 port

  url_of-RunsAt :
      (r : Result BindError (ℕ × Text)) (u : Text)
      → IsScan (H.run memoryless) 8086 8136 r
      → url_of (relay_of H r) ≡ some u
      → RunsAt u
  unfolding url_of relay_of
  url_of-RunsAt (ok (port, url)) u (low, high, runs, busy) h = (port, low, high, cc, busy)
  url_of-RunsAt (err e) u s h = cc

  relay_handle-RunsAt :
      (enabled : Bool) (u : Text)
      → (relay_handle H listen enabled).1 ≡ some u
      → (enabled ≡ true) × RunsAt u
  unfolding relay_handle spawn_memoryless bound
  relay_handle-RunsAt false u h = cc
  relay_handle-RunsAt true u h = (
    refl,
    url_of-RunsAt (bind_with_port_scan H.run memoryless 0).1 u
        (bind_with_port_scan-IsScan H.run memoryless) h,
  )

  -- In a shim that serves, an upgrade of the root is piped only to the memoryless relay that the shim
  -- has started, on the lowest free port from 8086 to 8135, and only where the configuration enables
  -- that and the handshake succeeds; the limit on messages is the configured one.
  pub main-piped :
      (K : Keys) (J : Json) (version : Text) (env : Env) (state : AppState) (page : Option Text)
      (req : Request) (limit : ℕ) (u : Text)
      → (main H listen env).1 ≡ serves state page
      → root_handler K J version state.config state.relay_url req ≡ piped limit u
      → (state.config.enable_relay ≡ true)
        × RunsAt u
        × (req.upgrade ≡ true)
        × (req.handshake ≡ ok tt)
        × (limit ≡ state.config.max_ws_message_bytes)
  main-piped K J version env state page req limit u h p =
      let (cfg, _, _, s, _) = ((main-serves_iff env).1 state page).0 h in
      let (r, up, shake, m) =
        root_handler-piped K J version state.config state.relay_url req limit u p in
      let (on, runs) = relay_handle-RunsAt cfg.enable_relay u (sym (ap (λ a. a.relay_url) s) ∙ r) in
      (ap (λ a. a.config.enable_relay) s ∙ on, runs, up, shake, m)
