-- ===== src/Config.antt =====
-- `read_server_config` of crates/outlay/src/config.rs. `bundled_relay` is the cargo feature of that
-- name: without it the configuration has no `bundled` part.
pub mod Usable
use outlay.Base.{ℕ, Bool, true, false, ◌||◌, Option, some, none, List, [], ◌∷◌, if◌then◌else◌}
use outlay.Base.Res.{Result, ok, err, ◌>>=◌}
use outlay.Base.Opt.{unwrap_or}
use outlay.Base.Text.{Text, codes, ◌==◌}
use outlay.Env.{Env, GiftWrapMode, ephemeral, persistent, opt_string, csv, or_default, number}

pub record BundledConfig : Type 0 where
  pub backend : Text
  pub db_path : Text
  pub port : ℕ

pub record ServerConfig : Type 0 where
  pub proxy_relay_url : Option Text
  pub cvm_relay_urls : List Text
  pub private_key_hex : Option Text
  pub server_name : Text
  pub server_about : Option Text
  pub is_announced : Bool
  pub gift_wrap_mode : GiftWrapMode
  pub bundled : Option BundledConfig

pub data ConfigError : Type 0 where
  missing_proxy_relay_url : ConfigError
  invalid_boolean invalid_gift_wrap_mode : Text → ConfigError

unfoldable pub default_cvm_relay_urls : List Text
default_cvm_relay_urls = codes "wss://nostr.wtf" ∷ []

-- `opt_bool` on the value of the variable; an error names the variable.
unfoldable pub bool_of : Text → Option Text → Result ConfigError (Option Bool)
bool_of name none = ok none
bool_of name (some s) =
    if s == codes "true" || s == codes "1"
    then ok (some true)
    else if s == codes "false" || s == codes "0"
    then ok (some false)
    else err (invalid_boolean name)

unfoldable pub opt_bool : Env → Text → Result ConfigError (Option Bool)
unfolding bool_of
opt_bool env name = bool_of name (opt_string env name)

unfoldable pub cvm_relay_urls_of : Option Text → List Text
cvm_relay_urls_of (some raw) = or_default default_cvm_relay_urls (csv raw)
cvm_relay_urls_of none = default_cvm_relay_urls

unfoldable pub gift_wrap_mode_of : Option Text → Result ConfigError GiftWrapMode
gift_wrap_mode_of none = ok ephemeral
gift_wrap_mode_of (some s) =
    if s == codes "ephemeral"
    then ok ephemeral
    else if s == codes "persistent"
    then ok persistent
    else if s == codes "optional"
    then ok GiftWrapMode.optional
    else err (invalid_gift_wrap_mode s)

unfoldable pub bundled_config : Env → BundledConfig
bundled_config env = record {
  backend = unwrap_or (opt_string env (codes "OUTLAY_BUNDLED_BACKEND")) (codes "sqlite");
  db_path = unwrap_or (opt_string env (codes "OUTLAY_BUNDLED_DB_PATH")) (codes "outlay-relay.db");
  port = number 65536 0 (opt_string env (codes "OUTLAY_BUNDLED_PORT"));
}

-- Whether the upstream is missing: no URL, and no relay compiled in.
unfoldable pub upstream : Bool → Option Text → Result ConfigError (Option Text)
upstream bundled_relay (some url) = ok (some url)
upstream true none = ok none
upstream false none = err missing_proxy_relay_url

-- The configuration, once the choices that can be refused are made.
unfoldable pub server_config : Bool → Env → Option Text → GiftWrapMode → Option Bool → ServerConfig
unfolding bundled_config cvm_relay_urls_of
server_config bundled_relay env proxy_relay_url gift_wrap announced = record {
  proxy_relay_url = proxy_relay_url;
  cvm_relay_urls = cvm_relay_urls_of (opt_string env (codes "OUTLAY_CVM_RELAYS"));
  private_key_hex = opt_string env (codes "OUTLAY_SERVER_PRIVATE_KEY");
  server_name = unwrap_or (opt_string env (codes "OUTLAY_SERVER_NAME")) (codes "outlay");
  server_about = opt_string env (codes "OUTLAY_SERVER_ABOUT");
  is_announced = unwrap_or announced false;
  gift_wrap_mode = gift_wrap;
  bundled = if bundled_relay then some (bundled_config env) else none;
}

unfoldable pub read_server_config : Bool → Env → Result ConfigError ServerConfig
unfolding upstream gift_wrap_mode_of opt_bool server_config
read_server_config bundled_relay env = do
  url ← upstream bundled_relay (opt_string env (codes "OUTLAY_PROXY_RELAY_URL"))
  gift_wrap ← gift_wrap_mode_of (opt_string env (codes "OUTLAY_GIFT_WRAP_MODE"))
  announced ← opt_bool env (codes "OUTLAY_ANNOUNCED")
  ok (server_config bundled_relay env url gift_wrap announced)
