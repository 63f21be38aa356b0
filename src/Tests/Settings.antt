-- ===== src/Tests/Settings.antt =====
-- The unit tests that stand in crates/outlay/src/config.rs and crates/outlay-shim/src/config.rs,
-- run on the model.
use outlay.Base.{ℕ, Bool, true, false, Option, some, none, List, [], ◌∷◌, ◌≡◌, refl, if◌then◌else◌}
use outlay.Base.Res.{Result, ok, err}
use outlay.Base.Text.{Text, codes, ◌==◌, to_ascii_lowercase, trim, is_space, split, parse_uint}
use outlay.Config
use outlay.Config.{ServerConfig, default_cvm_relay_urls, read_server_config}
use outlay.Env.{Env, GiftWrapMode, opt_string, csv, or_default, number}
use outlay.Shim.Config as ShimSettings
use outlay.Shim.Config.{ShimConfig, EncryptionMode, read_shim_config}
use outlay.Shim.Urls.{public_url}

-- `env(&[..])`
abbrev env : List (Text × Text) → Env
env [] name = none
env ((k, v) ∷ pairs) name = if name == k then some v else env pairs name

abbrev shown {ℓ κ} : {E : Type 0} {A : Type ℓ} {B : Type κ} → (A → B) → Result E A → Option B
shown f (ok a) = some (f a)
shown f (err e) = none

unfoldable reading : Unit {0}
unfolding read_server_config default_cvm_relay_urls or_default read_shim_config opt_string csv
    number trim is_space split ◌==◌ to_ascii_lowercase parse_uint
reading = tt

-- config.rs of outlay
defaults :
    shown {B = Option Text × List Text × Text × Bool × Option Text × GiftWrapMode}
      (λ c. (
        c.proxy_relay_url, c.cvm_relay_urls, c.server_name, c.is_announced, c.private_key_hex,
        c.gift_wrap_mode,
      ))
      (read_server_config true
        (env ((codes "OUTLAY_PROXY_RELAY_URL", codes "ws://localhost:8080") ∷ [])))
    ≡ some (
      some (codes "ws://localhost:8080"),
      codes "wss://nostr.wtf" ∷ [],
      codes "outlay",
      false,
      none,
      GiftWrapMode.ephemeral,
    )
unfolding reading
defaults = refl

overrides :
    shown {B = Option Text × List Text × Text × Bool × GiftWrapMode}
      (λ c. (c.proxy_relay_url, c.cvm_relay_urls, c.server_name, c.is_announced, c.gift_wrap_mode))
      (read_server_config true (
        env (
          (codes "OUTLAY_PROXY_RELAY_URL", codes "wss://relay.nostr.net")
          ∷ (codes "OUTLAY_CVM_RELAYS", codes "wss://a.test, wss://b.test")
          ∷ (codes "OUTLAY_SERVER_NAME", codes "my-outlay")
          ∷ (codes "OUTLAY_ANNOUNCED", codes "1")
          ∷ (codes "OUTLAY_GIFT_WRAP_MODE", codes "persistent")
          ∷ [])))
    ≡ some (
      some (codes "wss://relay.nostr.net"),
      codes "wss://a.test" ∷ codes "wss://b.test" ∷ [],
      codes "my-outlay",
      true,
      GiftWrapMode.persistent,
    )
unfolding reading
overrides = refl

missing_upstream_is_required_without_bundled :
    read_server_config false (env []) ≡ err Config.missing_proxy_relay_url
unfolding reading
missing_upstream_is_required_without_bundled = refl

invalid_gift_wrap_mode_rejected :
    read_server_config true (env ((codes "OUTLAY_GIFT_WRAP_MODE", codes "sealed") ∷ []))
    ≡ err (Config.invalid_gift_wrap_mode (codes "sealed"))
unfolding reading
invalid_gift_wrap_mode_rejected = refl

-- config.rs of the shim
shim_defaults :
    shown
      {B = Text
        × List Text
        × EncryptionMode
        × ℕ
        × ℕ
        × Option Text
        × GiftWrapMode
        × ℕ
        × Bool
        × List Text}
      (λ c. (
        c.listen_addr, c.relay_urls, c.encryption_mode, c.connect_timeout, c.max_ws_message_bytes,
        c.private_key, c.gift_wrap_mode, c.max_cached_outlays, c.enable_relay, c.public_urls,
      ))
      (read_shim_config (env []))
    ≡ some (
      codes "127.0.0.1:8088",
      codes "wss://nostr.wtf" ∷ [],
      EncryptionMode.optional,
      15,
      1048576,
      none,
      GiftWrapMode.ephemeral,
      64,
      true,
      [],
    )
unfolding reading
shim_defaults = refl

shim_overrides :
    shown
      {B = Text
        × List Text
        × EncryptionMode
        × ℕ
        × Option Text
        × GiftWrapMode
        × ℕ
        × Bool
        × List Text}
      (λ c. (
        c.listen_addr, c.relay_urls, c.encryption_mode, c.connect_timeout, c.private_key,
        c.gift_wrap_mode, c.max_cached_outlays, c.enable_relay, c.public_urls,
      ))
      (read_shim_config (
        env (
          (codes "OUTLAY_SHIM_LISTEN_ADDR", codes "127.0.0.1:9100")
          ∷ (codes "OUTLAY_SHIM_CVM_RELAYS", codes "wss://a.test, wss://b.test")
          ∷ (codes "OUTLAY_SHIM_ENCRYPTION_MODE", codes "disabled")
          ∷ (codes "OUTLAY_SHIM_CONNECT_TIMEOUT", codes "30")
          ∷ (codes "OUTLAY_SHIM_PRIVATE_KEY", codes "nsec1...")
          ∷ (codes "OUTLAY_SHIM_GIFT_WRAP_MODE", codes "optional")
          ∷ (codes "OUTLAY_SHIM_MAX_CACHED_OUTLAYS", codes "8")
          ∷ (codes "OUTLAY_SHIM_RELAY", codes "false")
          ∷ (codes "OUTLAY_SHIM_PUBLIC_URLS", codes "wss://nostr.wtf, wss://x.example")
          ∷ [])))
    ≡ some (
      codes "127.0.0.1:9100",
      codes "wss://a.test" ∷ codes "wss://b.test" ∷ [],
      EncryptionMode.disabled,
      30,
      some (codes "nsec1..."),
      GiftWrapMode.optional,
      8,
      false,
      codes "wss://nostr.wtf" ∷ codes "wss://x.example" ∷ [],
    )
unfolding reading
shim_overrides = refl

invalid_encryption_rejected :
    read_shim_config (env ((codes "OUTLAY_SHIM_ENCRYPTION_MODE", codes "encrypted") ∷ []))
    ≡ err (ShimSettings.invalid_encryption (codes "encrypted"))
unfolding reading
invalid_encryption_rejected = refl

max_cached_outlays_floors_to_one :
    shown
      (λ c. c.max_cached_outlays)
      (read_shim_config (env ((codes "OUTLAY_SHIM_MAX_CACHED_OUTLAYS", codes "0") ∷ [])))
    ≡ some 1
unfolding reading
max_cached_outlays_floors_to_one = refl

invalid_relay_flag_rejected :
    read_shim_config (env ((codes "OUTLAY_SHIM_RELAY", codes "yes") ∷ []))
    ≡ err (ShimSettings.invalid_boolean (codes "yes"))
unfolding reading
invalid_relay_flag_rejected = refl

public_url_prefers_public_urls_then_relay_urls :
    (public_url [] (codes "wss://nostr.wtf" ∷ []) ≡ some (codes "wss://nostr.wtf"))
    × (public_url (codes "wss://shim.example" ∷ []) (codes "wss://nostr.wtf" ∷ [])
        ≡ some (codes "wss://shim.example"))
    × (public_url [] [] ≡ none)
unfolding public_url
public_url_prefers_public_urls_then_relay_urls = (refl, refl, refl)
