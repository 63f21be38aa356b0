-- ===== src/Shim/Config/Usable.antt =====
-- What every configuration that `read_shim_config` of crates/outlay-shim/src/config.rs reads is good
-- for.
use outlay.Base.{ℕ, ◌≤◌, ◌<◌, Bool, Option, some, none, List, [], ◌∷◌, ◌≡◌, ◌≢◌, refl, arith, All}
use outlay.Base.Res.{ok, >>=-eq-ok}
use outlay.Base.Text.{Text, codes, trim, is_space}
use outlay.Env.{
  unwrap_or-IsClean, or_default-IsClean, GiftWrapMode, Env, opt_string, csv, csv-IsClean, number,
  number-lt, IsClean,
}
use outlay.Shim.Urls.{public_url}
use outlay.Shim.Config.{
  EncryptionMode, ShimConfig, word_bound, default_relay_urls, opt_bool_env, relay_urls_of,
  encryption_mode_of, gift_wrap_mode_of, public_urls_of, at_least_one, shim_config,
  read_shim_config,
}

-- What the rest of the shim takes for granted of a configuration.
pub record IsUsable (c : ShimConfig) : Type 0 where
  pub address : IsClean (c.listen_addr)
  pub relays : All IsClean (c.relay_urls) × (c.relay_urls ≢ [])
  pub publics : All IsClean (c.public_urls)
  pub face : public_url c.public_urls c.relay_urls ≢ none
  pub capacity : (1 ≤ c.max_cached_outlays) × (c.max_cached_outlays < word_bound)
  pub timeout : c.connect_timeout < word_bound
  pub message : c.max_ws_message_bytes < word_bound

default_relay_urls-IsClean : All IsClean default_relay_urls × (default_relay_urls ≢ [])
unfolding default_relay_urls trim is_space
default_relay_urls-IsClean = (((refl, refl), tt), λ e. cc)

relay_urls_of-IsClean : (o : Option Text) → All IsClean (relay_urls_of o) × (relay_urls_of o ≢ [])
unfolding relay_urls_of
relay_urls_of-IsClean none = default_relay_urls-IsClean
relay_urls_of-IsClean (some raw) =
    or_default-IsClean default_relay_urls (csv raw) default_relay_urls-IsClean (csv-IsClean raw)

public_urls_of-IsClean : (o : Option Text) → All IsClean (public_urls_of o)
unfolding public_urls_of
public_urls_of-IsClean none = tt
public_urls_of-IsClean (some raw) = csv-IsClean raw

public_url-ne_none : (ps rs : List Text) → rs ≢ [] → public_url ps rs ≢ none
unfolding public_url
public_url-ne_none (p ∷ ps) rs h e = cc
public_url-ne_none [] (r ∷ rs) h e = cc
public_url-ne_none [] [] h e = h refl

at_least_one-bounds :
    (n : ℕ) → n < word_bound → (1 ≤ at_least_one n) × (at_least_one n < word_bound)
unfolding at_least_one
at_least_one-bounds n h = ground arith

shim_config-IsUsable :
    (env : Env) (encryption : EncryptionMode) (gift_wrap : GiftWrapMode) (relay : Option Bool)
    → IsUsable (shim_config env encryption gift_wrap relay)
unfolding shim_config trim is_space
shim_config-IsUsable env encryption gift_wrap relay = record {
  address =
      unwrap_or-IsClean env (codes "OUTLAY_SHIM_LISTEN_ADDR") (codes "127.0.0.1:8088") (refl, refl);
  relays = relay_urls_of-IsClean (opt_string env (codes "OUTLAY_SHIM_CVM_RELAYS"));
  publics = public_urls_of-IsClean (opt_string env (codes "OUTLAY_SHIM_PUBLIC_URLS"));
  face =
      public_url-ne_none (public_urls_of (opt_string env (codes "OUTLAY_SHIM_PUBLIC_URLS")))
        (relay_urls_of (opt_string env (codes "OUTLAY_SHIM_CVM_RELAYS")))
        (relay_urls_of-IsClean (opt_string env (codes "OUTLAY_SHIM_CVM_RELAYS"))).1;
  capacity =
      at_least_one-bounds
        (number word_bound 64 (opt_string env (codes "OUTLAY_SHIM_MAX_CACHED_OUTLAYS")))
        (number-lt word_bound 64 (opt_string env (codes "OUTLAY_SHIM_MAX_CACHED_OUTLAYS"))
          (omega arith));
  timeout =
      number-lt word_bound 15 (opt_string env (codes "OUTLAY_SHIM_CONNECT_TIMEOUT")) (omega arith);
  message =
      number-lt word_bound 1048576 (opt_string env (codes "OUTLAY_SHIM_MAX_WS_MESSAGE_BYTES"))
        (omega arith);
}

read_shim_config-eq-ok :
    (env : Env) (c : ShimConfig)
    → read_shim_config env ≡ ok c
    → (encryption : EncryptionMode) × (gift_wrap : GiftWrapMode) × (relay : Option Bool) × (c
        ≡ shim_config env encryption gift_wrap relay)
unfolding read_shim_config
read_shim_config-eq-ok env c h =
    let (encryption, _, h1) =
      >>=-eq-ok (encryption_mode_of (opt_string env (codes "OUTLAY_SHIM_ENCRYPTION_MODE"))) _ h in
    let (gift_wrap, _, h2) =
      >>=-eq-ok (gift_wrap_mode_of (opt_string env (codes "OUTLAY_SHIM_GIFT_WRAP_MODE"))) _ h1 in
    let (relay, _, h3) = >>=-eq-ok (opt_bool_env env (codes "OUTLAY_SHIM_RELAY")) _ h2 in
    (encryption, gift_wrap, relay, cc)

-- Whatever the environment, a configuration that is read is usable: an address and at least one
-- relay URL, none of them blank, a public face, room for one cached server at least (so that
-- `NonZeroUsize::new(..).expect(..)` in `AppState::new` does not fail) and numbers that fit.
pub read_shim_config-IsUsable :
    (env : Env) (c : ShimConfig) → read_shim_config env ≡ ok c → IsUsable c
read_shim_config-IsUsable env c h =
    let (encryption, gift_wrap, relay, e) = read_shim_config-eq-ok env c h in
    rw e (shim_config-IsUsable env encryption gift_wrap relay)
