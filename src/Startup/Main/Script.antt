-- ===== src/Startup/Main/Script.antt =====
-- `main` of crates/outlay/src/main.rs: the steps of a start, in order, each with the error that ends
-- the run in it.
use outlay.Base.{Bool, map, List, [], ◌∷◌, ◌++◌, Option, some, none, ◌≡◌, refl, ap, ◌∙◌}
use outlay.Base.Res.{Result, ok, err, map_err}
use outlay.Base.Traced.{Traced, ◌>>=◌, step, >>=-of-ok}
use outlay.Base.Text.{Text, codes}
use outlay.Config.{ServerConfig, BundledConfig, read_server_config}
use outlay.Env.{Env}
use outlay.Proxy.{init, connect}
use outlay.Relay.Spawn.{BundledRelay, SpawnError, spawn}
use outlay.Startup.{backend_of, upstream_url, select_upstream, spawned}
use outlay.Startup.Banner.{build_transport_config, banner}
use outlay.Startup.Main.{
  with_config, with_key, announce, open_service, serve_until, Action, Deployment, MainError,
  on_host, build_http, connect_pool, main, new_pool, new_proxy, open_transport, open_upstream,
  print, public_key, run_service, serve, service, shutdown, shutdown_actions, spawn_actions,
  transport, upstream, wrap, chosen, url_of,
}

-- A step, and the error that the program ends with if the step fails.
abbrev pub Stage : Type 0
Stage = Action × Option MainError

-- All the steps up to the first that fails, that one included, and its error.
abbrev pub run_stages : List Stage → Traced Action MainError (Unit {0})
run_stages [] = ([], ok tt)
run_stages ((a, none) ∷ rest) = (a ∷ (run_stages rest).0, (run_stages rest).1)
run_stages ((a, some e) ∷ rest) = (a ∷ [], err e)

abbrev pub failure : {A : Type 0} → (Text → MainError) → Result Text A → Option MainError
failure f (ok a) = none
failure f (err e) = some (f e)

-- What a run of `spawn` has started.
abbrev pub relay_in : Result SpawnError BundledRelay → Option BundledRelay
relay_in (ok relay) = some relay
relay_in (err e) = none

-- A bundled relay that runs is shut down.
abbrev pub stops : Option BundledRelay → List Stage
stops none = []
stops (some relay) = (shutdown, none) ∷ []

step-run :
    {A : Type 0} (a : Action) (f : Text → MainError) (r : Result Text A) (rest : List Stage)
    (then : A → Traced Action MainError (Unit {0}))
    → ((x : A) → then x ≡ run_stages rest)
    → (step a (map_err f r) >>= then) ≡ run_stages ((a, failure f r) ∷ rest)
step-run a f (ok x) rest then h = ap (λ q. (a ∷ q.0, q.1)) (h x)
step-run a f (err e) rest then h = refl

-- The three steps of `Proxy::new` in front of the rest.
proxy-run :
    (p q r : Result Text (Unit {0})) (url : Text) (rest : List Stage)
    (then : Unit {0} → Traced Action MainError (Unit {0}))
    → ((x : Unit {0}) → then x ≡ run_stages rest)
    → (wrap (upstream url) (
          step new_pool (map_err init p) >>= (λ _.
            step (connect_pool url) (map_err connect q)
            >>= (λ _. step build_http (map_err (λ e. init (codes "http client: " ++ e)) r))))
        >>= then)
      ≡ run_stages (
          (new_pool, failure (λ e. upstream url (init e)) p)
          ∷ (connect_pool url, failure (λ e. upstream url (connect e)) q)
          ∷ (build_http, failure (λ e. upstream url (init (codes "http client: " ++ e))) r)
          ∷ rest)
proxy-run (err e) q r url rest then h = refl
proxy-run (ok _) (err e) r url rest then h = refl
proxy-run (ok _) (ok _) (err e) url rest then h = refl
proxy-run (ok _) (ok _) (ok x) url rest then h =
    ap (λ s. (new_pool ∷ connect_pool url ∷ build_http ∷ s.0, s.1)) (h x)

-- The upstream is the URL that is set, or else that of the bundled relay that runs.
abbrev pub IsSource : Option Text → Option BundledRelay → Text → Type 0
IsSource (some given) relay url = given ≡ url
IsSource none (some relay) url = relay.url ≡ url
IsSource none none url = ⊥

module _ (D : Deployment) where
  -- The bundled relay of a configuration: one that sets a URL has none.
  abbrev pub own_relay : Option Text → Option BundledConfig → Option BundledRelay
  own_relay (some url) bundled = none
  own_relay none none = none
  own_relay none (some b) = relay_in (spawn D.host (backend_of b.backend) (some b.db_path) b.port).1

  -- What spawning it does.
  abbrev pub spawning : Option Text → Option BundledConfig → List Action
  spawning (some url) bundled = []
  spawning none none = []
  spawning none (some b) =
      map on_host (spawn D.host (backend_of b.backend) (some b.db_path) b.port).0

  spawn_actions-spawning :
      (set : Option Text) (bundled : Option BundledConfig)
      → spawn_actions D.host set bundled ≡ spawning set bundled
  unfolding spawn_actions
  spawn_actions-spawning (some url) bundled = refl
  spawn_actions-spawning none none = refl
  spawn_actions-spawning none (some b) = refl

  -- The steps behind the choice of the upstream.
  abbrev pub stages : ServerConfig → Text → Text → List Stage
  stages cfg server_pubkey url =
      (new_pool, failure (λ e. upstream url (init e)) D.new_pool)
      ∷ (connect_pool url, failure (λ e. upstream url (connect e)) (D.connect_pool url))
      ∷ (build_http, failure (λ e. upstream url (init (codes "http client: " ++ e))) D.build_http)
      ∷ (print (banner server_pubkey cfg url), none)
      ∷ (
        open_transport (build_transport_config cfg),
        failure transport (D.open_transport (build_transport_config cfg)),
      )
      ∷ (serve, failure service D.serve)
      ∷ stops (own_relay cfg.proxy_relay_url cfg.bundled)

  source_spawned :
      (r : Result SpawnError BundledRelay) (url : Text)
      → IsSource none (relay_in r) url
      → chosen (spawned (url_of r)) ≡ ok url
  unfolding chosen spawned url_of
  source_spawned (ok relay) url h = ap ok h
  source_spawned (err e) url h = absurd h

  open_upstream-source :
      (set : Option Text) (bundled : Option BundledConfig) (url : Text)
      → IsSource set (own_relay set bundled) url
      → chosen (
          select_upstream bundled set
            (λ backend path port. url_of (spawn D.host backend (some path) port).1))
        ≡ ok url
  unfolding chosen select_upstream
  open_upstream-source (some given) bundled url h = ap ok h
  open_upstream-source none none url h = absurd h
  open_upstream-source none (some b) url h =
      source_spawned (spawn D.host (backend_of b.backend) (some b.db_path) b.port).1 url h

  shutdown_spawned :
      (r : Result SpawnError BundledRelay) (url : Text)
      → IsSource none (relay_in r) url
      → (shutdown ∷ [], ok tt) ≡ run_stages (stops (relay_in r))
  shutdown_spawned (ok relay) url h = refl
  shutdown_spawned (err e) url h = absurd h

  shutdown-run :
      (set : Option Text) (bundled : Option BundledConfig) (url : Text)
      → IsSource set (own_relay set bundled) url
      → (shutdown_actions set bundled, ok tt) ≡ run_stages (stops (own_relay set bundled))
  unfolding shutdown_actions
  shutdown-run (some given) bundled url h = refl
  shutdown-run none none url h = absurd h
  shutdown-run none (some b) url h =
      shutdown_spawned (spawn D.host (backend_of b.backend) (some b.db_path) b.port).1 url h

  run_service-stages :
      (cfg : ServerConfig) (server_pubkey url : Text)
      → IsSource cfg.proxy_relay_url (own_relay cfg.proxy_relay_url cfg.bundled) url
      → run_service D cfg server_pubkey url ≡ run_stages (stages cfg server_pubkey url)
  unfolding run_service new_proxy announce open_service serve_until
  run_service-stages cfg server_pubkey url h =
      let t = build_transport_config cfg in
      let shown = print (banner server_pubkey cfg url) in
      proxy-run D.new_pool (D.connect_pool url) D.build_http url _ _ (λ _.
        ap (λ q. (shown ∷ q.0, q.1))
          (step-run (open_transport t) transport (D.open_transport t) _ _ (λ _.
            step-run serve service D.serve _ _
              (λ _. shutdown-run cfg.proxy_relay_url cfg.bundled url h))))

  -- The configuration is read and the key is one; `url` is the one that is set or else that of the
  -- bundled relay that has been spawned. Then the program makes the relay pool, connects it to `url`,
  -- builds the HTTP client, prints the banner, opens the transport and serves, in this order, and at
  -- the end shuts the bundled relay down just where one was spawned. The first of these steps that
  -- fails is the last one that is done, and the program ends with the error of that step; if none
  -- fails, it ends without an error.
  pub main-run_stages :
      (bundled_relay : Bool) (env : Env) (cfg : ServerConfig) (server_pubkey url : Text)
      → read_server_config bundled_relay env ≡ ok cfg
      → public_key D cfg.private_key_hex ≡ ok server_pubkey
      → IsSource cfg.proxy_relay_url (own_relay cfg.proxy_relay_url cfg.bundled) url
      → main D bundled_relay env ≡ (
        spawning cfg.proxy_relay_url cfg.bundled ++ (run_stages (stages cfg server_pubkey url)).0,
        (run_stages (stages cfg server_pubkey url)).1,
      )
  unfolding main with_config with_key open_upstream upstream_url
  main-run_stages bundled_relay env cfg server_pubkey url h k u =
      let chosen_url = open_upstream-source cfg.proxy_relay_url cfg.bundled url u in
      rw (h, k)
        (>>=-of-ok (open_upstream D cfg) _ chosen_url
          ∙ ap (λ q. (spawn_actions D.host cfg.proxy_relay_url cfg.bundled ++ q.0, q.1))
              (run_service-stages cfg server_pubkey url u)
          ∙ ap
              (λ x. (
                x ++ (run_stages (stages cfg server_pubkey url)).0,
                (run_stages (stages cfg server_pubkey url)).1,
              ))
              (spawn_actions-spawning cfg.proxy_relay_url cfg.bundled))
