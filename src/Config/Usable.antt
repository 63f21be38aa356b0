-- ===== src/Config/Usable.antt =====
-- What every configuration that `read_server_config` of crates/outlay/src/config.rs reads is good
-- for.
use outlay.Base.{
  ◌<◌, Bool, true, false, Option, some, none, [], ◌≡◌, ◌≢◌, refl, arith, if◌then◌else◌, All,
}
use outlay.Base.Res.{ok, >>=-eq-ok}
use outlay.Base.Text.{Text, codes, trim, is_space}
use outlay.Env.{
  Env, GiftWrapMode, opt_string, opt_string-IsClean, csv, csv-IsClean, or_default-IsClean,
  unwrap_or-IsClean, number-lt, IsClean,
}
use outlay.Config.{
  ServerConfig, BundledConfig, default_cvm_relay_urls, cvm_relay_urls_of, opt_bool,
  gift_wrap_mode_of, bundled_config, upstream, server_config, read_server_config,
}

-- A bundled relay is there, with a port that fits, or there is none.
abbrev pub HasBundled : Bool → Option BundledConfig → Type 0
HasBundled bundled_relay none = bundled_relay ≡ false
HasBundled bundled_relay (some b) =
    (bundled_relay ≡ true) × IsClean (b.backend) × IsClean (b.db_path) × (b.port < 65536)

-- An upstream is there: an external relay, or the bundled one.
abbrev pub HasUpstream : Bool → Option Text → Type 0
HasUpstream bundled_relay none = bundled_relay ≡ true
HasUpstream bundled_relay (some url) = IsClean url

pub record IsUsable (bundled_relay : Bool) (c : ServerConfig) : Type 0 where
  pub relays : All IsClean (c.cvm_relay_urls) × (c.cvm_relay_urls ≢ [])
  pub name : IsClean (c.server_name)
  pub bundle : HasBundled bundled_relay (c.bundled)
  pub source : HasUpstream bundled_relay (c.proxy_relay_url)

default_cvm_relay_urls-IsClean : All IsClean default_cvm_relay_urls × (default_cvm_relay_urls ≢ [])
unfolding default_cvm_relay_urls trim is_space
default_cvm_relay_urls-IsClean = (((refl, refl), tt), λ e. cc)

cvm_relay_urls_of-IsClean :
    (o : Option Text) → All IsClean (cvm_relay_urls_of o) × (cvm_relay_urls_of o ≢ [])
unfolding cvm_relay_urls_of
cvm_relay_urls_of-IsClean none = default_cvm_relay_urls-IsClean
cvm_relay_urls_of-IsClean (some raw) =
    or_default-IsClean default_cvm_relay_urls (csv raw) default_cvm_relay_urls-IsClean
      (csv-IsClean raw)

bundled_config-HasBundled :
    (bundled_relay : Bool) (env : Env)
    → HasBundled bundled_relay (if bundled_relay then some (bundled_config env) else none)
unfolding bundled_config trim is_space
bundled_config-HasBundled false env = refl
bundled_config-HasBundled true env = (
  refl,
  unwrap_or-IsClean env (codes "OUTLAY_BUNDLED_BACKEND") (codes "sqlite") (refl, refl),
  unwrap_or-IsClean env (codes "OUTLAY_BUNDLED_DB_PATH") (codes "outlay-relay.db") (refl, refl),
  number-lt 65536 0 (opt_string env (codes "OUTLAY_BUNDLED_PORT")) (omega arith),
)

upstream-HasUpstream :
    (bundled_relay : Bool) (o url : Option Text)
    → ((s : Text) → o ≡ some s → IsClean s)
    → upstream bundled_relay o ≡ ok url
    → HasUpstream bundled_relay url
unfolding upstream
upstream-HasUpstream bundled_relay (some s) none k h = cc
upstream-HasUpstream bundled_relay (some s) (some t) k h = k t cc
upstream-HasUpstream true none none k h = refl
upstream-HasUpstream true none (some t) k h = cc
upstream-HasUpstream false none url k h = cc

server_config-IsUsable :
    (bundled_relay : Bool) (env : Env) (url : Option Text) (gift_wrap : GiftWrapMode)
    (announced : Option Bool)
    → HasUpstream bundled_relay url
    → IsUsable bundled_relay (server_config bundled_relay env url gift_wrap announced)
unfolding server_config trim is_space
server_config-IsUsable bundled_relay env url gift_wrap announced h = record {
  relays = cvm_relay_urls_of-IsClean (opt_string env (codes "OUTLAY_CVM_RELAYS"));
  name = unwrap_or-IsClean env (codes "OUTLAY_SERVER_NAME") (codes "outlay") (refl, refl);
  bundle = bundled_config-HasBundled bundled_relay env;
  source = h;
}

-- Whatever the environment, a configuration that is read is usable: a relay to listen on at least,
-- a name, an upstream (an external relay's URL, or the bundled relay where that is compiled in) and
-- a bundled part just where that is compiled in, with a port that fits; no URL, name or path blank.
pub read_server_config-IsUsable :
    (bundled_relay : Bool) (env : Env) (c : ServerConfig)
    → read_server_config bundled_relay env ≡ ok c
    → IsUsable bundled_relay c
unfolding read_server_config
read_server_config-IsUsable bundled_relay env c h =
    let (url, h0, h1) =
      >>=-eq-ok (upstream bundled_relay (opt_string env (codes "OUTLAY_PROXY_RELAY_URL"))) _ h in
    let (gift_wrap, _, h2) =
      >>=-eq-ok (gift_wrap_mode_of (opt_string env (codes "OUTLAY_GIFT_WRAP_MODE"))) _ h1 in
    let (announced, _, h3) = >>=-eq-ok (opt_bool env (codes "OUTLAY_ANNOUNCED")) _ h2 in
    let e : c ≡ server_config bundled_relay env url gift_wrap announced = cc in
    rw e (
      server_config-IsUsable bundled_relay env url gift_wrap announced (
        upstream-HasUpstream bundled_relay (opt_string env (codes "OUTLAY_PROXY_RELAY_URL")) url
          (opt_string-IsClean env (codes "OUTLAY_PROXY_RELAY_URL")) h0))
