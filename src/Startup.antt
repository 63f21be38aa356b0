-- ===== src/Startup.antt =====
-- crates/outlay/src/main.rs: the choice of the upstream relay and the page's address. The bundled
-- relay's `spawn` is run against its answer, the URL it listens on or an error. `Startup.Banner` is
-- what is printed and `Startup.Main` the whole of `main`.
pub mod Banner
pub mod Main
use outlay.Base.{
  ℕ, Bool, ◌||◌, Option, some, none, ◌++◌, ◌≡◌, ◌≢◌, ◌⊎◌, inl, inr, Option-cases, if◌then◌else◌,
}
use outlay.Base.Res.{Result, ok, err}
use outlay.Base.Text.{Text, codes, ◌==◌, strip_prefix, starts_with, strip_prefix-eq-some}
use outlay.Env.{Env}
use outlay.Relay.Spawn.{Backend, memory, sqlite, SpawnError}
use outlay.Config.{ServerConfig, BundledConfig, read_server_config}
use outlay.Config.Usable.{HasBundled, HasUpstream, read_server_config-IsUsable}

unfoldable pub backend_of : Text → Backend
backend_of s = if s == codes "memory" then memory else sqlite

pub data Upstream : Type 0 where
  -- the URL to proxy
  proxies : Text → Upstream
  -- `.context("starting bundled relay")?`
  fails : SpawnError → Upstream
  -- `.expect("external upstream")`
  panics : Upstream

-- `spawn backend db_path port`
abbrev pub Spawn : Type 0
Spawn = Backend → Text → ℕ → Result SpawnError Text

unfoldable pub spawned : Result SpawnError Text → Upstream
spawned (ok url) = proxies url
spawned (err e) = fails e

unfoldable pub select_upstream : Option BundledConfig → Option Text → Spawn → Upstream
unfolding spawned backend_of
select_upstream bundled (some url) spawn = proxies url
select_upstream (some b) none spawn = spawned (spawn (backend_of b.backend) b.db_path b.port)
select_upstream none none spawn = panics

unfoldable pub upstream_url : ServerConfig → Spawn → Upstream
unfolding select_upstream
upstream_url cfg spawn = select_upstream cfg.bundled cfg.proxy_relay_url spawn

spawned-ne_panics : (r : Result SpawnError Text) → spawned r ≢ panics
unfolding spawned
spawned-ne_panics (ok url) h = cc
spawned-ne_panics (err e) h = cc

select_upstream-ne_panics :
    (bundled_relay : Bool) (bundled : Option BundledConfig) (url : Option Text) (spawn : Spawn)
    → HasBundled bundled_relay bundled
    → HasUpstream bundled_relay url
    → select_upstream bundled url spawn ≢ panics
unfolding select_upstream
select_upstream-ne_panics b bundled (some url) spawn h k e = cc
select_upstream-ne_panics b (some c) none spawn h k e =
    spawned-ne_panics (spawn (backend_of c.backend) c.db_path c.port) e
select_upstream-ne_panics b none none spawn h k e = cc

-- Under either setting of the cargo feature, a configuration that was read has an upstream: the
-- program never reaches the panic of `expect("external upstream")`.
pub upstream_url-ne_panics :
    (bundled_relay : Bool) (env : Env) (cfg : ServerConfig) (spawn : Spawn)
    → read_server_config bundled_relay env ≡ ok cfg
    → upstream_url cfg spawn ≢ panics
unfolding upstream_url
upstream_url-ne_panics bundled_relay env cfg spawn h =
    let u = read_server_config-IsUsable bundled_relay env cfg h in
    select_upstream-ne_panics bundled_relay cfg.bundled cfg.proxy_relay_url spawn u.bundle u.source

unfoldable pub or_https : Text → Text
or_https url =
    if starts_with (codes "https://") url || starts_with (codes "http://") url
    then url
    else codes "https://" ++ url

unfoldable pub or_http : Option Text → Text → Text
unfolding or_https
or_http (some rest) url = codes "http://" ++ rest
or_http none url = or_https url

unfoldable pub swapped : Option Text → Text → Text
unfolding or_http
swapped (some rest) url = codes "https://" ++ rest
swapped none url = or_http (strip_prefix (codes "ws://") url) url

unfoldable pub https_url : Text → Text
unfolding swapped
https_url url = swapped (strip_prefix (codes "wss://") url) url

-- A web address, with the rest of it.
abbrev pub IsWeb : Text → Type 0
IsWeb s = (rest : Text) × ((s ≡ codes "https://" ++ rest) ⊎ (s ≡ codes "http://" ++ rest))

or_https-IsWeb : (url : Text) → IsWeb (or_https url)
unfolding or_https starts_with
or_https-IsWeb url = elim (Option-cases (strip_prefix (codes "https://") url)) [
  | inr (rest, e) ↦ (rest, inl (rw e (strip_prefix-eq-some (codes "https://") url rest e)))
  | inl e ↦ elim (Option-cases (strip_prefix (codes "http://") url)) [
    | inr (rest, f) ↦ (rest, inr (rw (e, f) (strip_prefix-eq-some (codes "http://") url rest f)))
    | inl f ↦ (url, inl (rw (e, f)))
  ]
]

pub https_url-IsWeb : (url : Text) → IsWeb (https_url url)
unfolding https_url swapped or_http
https_url-IsWeb url = elim (Option-cases (strip_prefix (codes "wss://") url)) [
  | inr (rest, e) ↦ (rest, inl (rw e))
  | inl e ↦ elim (Option-cases (strip_prefix (codes "ws://") url)) [
    | inr (rest, f) ↦ (rest, inr (rw (e, f)))
    | inl f ↦ rw (e, f) (or_https-IsWeb url)
  ]
]

https_url_of_web : (url : Text) → IsWeb url → https_url url ≡ url
unfolding https_url swapped or_http strip_prefix or_https starts_with
https_url_of_web url (rest, inl e) = rw e
https_url_of_web url (rest, inr e) = rw e

-- The page's address is an http or https one, and swapping the scheme again changes nothing.
pub https_url_idem : (url : Text) → https_url (https_url url) ≡ https_url url
https_url_idem url = https_url_of_web (https_url url) (https_url-IsWeb url)
