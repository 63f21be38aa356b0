-- ===== src/Shim/Config.antt =====
-- `read_shim_config` of crates/outlay-shim/src/config.rs. `contextvm_sdk`'s two mode enums are as
-- the code names them; `usize` and `u64` have 64 bits.
pub mod Usable
pub mod Refusal
use outlay.Base.{ℕ, Bool, true, false, ◌||◌, Option, some, none, List, [], ◌∷◌, if◌then◌else◌, ltb}
use outlay.Base.Res.{Result, ok, err, ◌>>=◌}
use outlay.Base.Opt.{unwrap_or}
use outlay.Base.Text.{Text, codes, ◌==◌, to_ascii_lowercase}
use outlay.Env.{GiftWrapMode, ephemeral, persistent, Env, opt_string, csv, or_default, number}

pub data EncryptionMode : Type 0 where
  optional disabled required : EncryptionMode

pub record ShimConfig : Type 0 where
  pub listen_addr : Text
  pub relay_urls : List Text
  pub private_key : Option Text
  pub encryption_mode : EncryptionMode
  -- seconds
  pub connect_timeout : ℕ
  pub gift_wrap_mode : GiftWrapMode
  pub max_cached_outlays : ℕ
  pub max_ws_message_bytes : ℕ
  pub enable_relay : Bool
  pub public_urls : List Text

pub data ConfigError : Type 0 where
  invalid_encryption invalid_gift_wrap_mode invalid_boolean : Text → ConfigError

abbrev pub word_bound : ℕ
word_bound = 18446744073709551616

unfoldable pub default_relay_urls : List Text
default_relay_urls = codes "wss://nostr.wtf" ∷ []

-- `Some(s) if s == "true" || s == "1"` on the value in lower case
unfoldable pub bool_of : Option Text → Result ConfigError (Option Bool)
bool_of none = ok none
bool_of (some s) =
    if s == codes "true" || s == codes "1"
    then ok (some true)
    else if s == codes "false" || s == codes "0"
    then ok (some false)
    else err (invalid_boolean s)

unfoldable pub lowercase : Option Text → Option Text
lowercase none = none
lowercase (some s) = some (to_ascii_lowercase s)

unfoldable pub opt_bool_env : Env → Text → Result ConfigError (Option Bool)
unfolding bool_of lowercase
opt_bool_env env name = bool_of (lowercase (opt_string env name))

unfoldable pub relay_urls_of : Option Text → List Text
unfolding default_relay_urls
relay_urls_of (some raw) = or_default default_relay_urls (csv raw)
relay_urls_of none = default_relay_urls

unfoldable pub encryption_mode_of : Option Text → Result ConfigError EncryptionMode
encryption_mode_of none = ok EncryptionMode.optional
encryption_mode_of (some s) =
    if s == codes "optional"
    then ok EncryptionMode.optional
    else if s == codes "disabled"
    then ok disabled
    else if s == codes "required"
    then ok required
    else err (invalid_encryption s)

unfoldable pub gift_wrap_mode_of : Option Text → Result ConfigError GiftWrapMode
gift_wrap_mode_of none = ok ephemeral
gift_wrap_mode_of (some s) =
    if s == codes "ephemeral"
    then ok ephemeral
    else if s == codes "persistent"
    then ok persistent
    else if s == codes "optional"
    then ok GiftWrapMode.optional
    else err (invalid_gift_wrap_mode s)

unfoldable pub public_urls_of : Option Text → List Text
public_urls_of (some raw) = csv raw
public_urls_of none = []

-- `.max(1)`
unfoldable pub at_least_one : ℕ → ℕ
at_least_one n = if ltb n 1 then 1 else n

-- The configuration, once the three choices that can be refused are made.
unfoldable pub shim_config : Env → EncryptionMode → GiftWrapMode → Option Bool → ShimConfig
unfolding relay_urls_of public_urls_of at_least_one
shim_config env encryption gift_wrap relay = record {
  listen_addr =
      unwrap_or (opt_string env (codes "OUTLAY_SHIM_LISTEN_ADDR")) (codes "127.0.0.1:8088");
  relay_urls = relay_urls_of (opt_string env (codes "OUTLAY_SHIM_CVM_RELAYS"));
  private_key = opt_string env (codes "OUTLAY_SHIM_PRIVATE_KEY");
  encryption_mode = encryption;
  connect_timeout = number word_bound 15 (opt_string env (codes "OUTLAY_SHIM_CONNECT_TIMEOUT"));
  gift_wrap_mode = gift_wrap;
  max_cached_outlays =
      at_least_one (number word_bound 64 (opt_string env (codes "OUTLAY_SHIM_MAX_CACHED_OUTLAYS")));
  max_ws_message_bytes =
      number word_bound 1048576 (opt_string env (codes "OUTLAY_SHIM_MAX_WS_MESSAGE_BYTES"));
  enable_relay = unwrap_or relay true;
  public_urls = public_urls_of (opt_string env (codes "OUTLAY_SHIM_PUBLIC_URLS"));
}

unfoldable pub read_shim_config : Env → Result ConfigError ShimConfig
unfolding opt_bool_env encryption_mode_of gift_wrap_mode_of shim_config
read_shim_config env = do
  encryption ← encryption_mode_of (opt_string env (codes "OUTLAY_SHIM_ENCRYPTION_MODE"))
  gift_wrap ← gift_wrap_mode_of (opt_string env (codes "OUTLAY_SHIM_GIFT_WRAP_MODE"))
  relay ← opt_bool_env env (codes "OUTLAY_SHIM_RELAY")
  ok (shim_config env encryption gift_wrap relay)
