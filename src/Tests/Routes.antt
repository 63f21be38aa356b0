-- ===== src/Tests/Routes.antt =====
-- The shim's configuration, paths and HTTP routes: the theorems at concrete inputs.
use outlay.Base.{List, eqb, true, some, none, [], ◌∷◌, ◌≡◌, ◌↔◌, refl, inl, inr, if◌then◌else◌}
use outlay.Base.Res.{ok, err}
use outlay.Base.Text.{Text, codes, ◌==◌, trim, is_space, len, len_utf8}
use outlay.Env.{Env, ephemeral, opt_string}
use outlay.Shim.Config.{ShimConfig, shim_config, read_shim_config, disabled, lowercase}
use outlay.Shim.Config.Usable
use outlay.Shim.Config.Refusal
use outlay.Shim.Page.{render_html, page}
use outlay.Shim.Page.Markup
use outlay.Shim.Path
use outlay.Shim.Server
use outlay.Shim.Conn.{Inbound}
use outlay.Shim.Urls
use outlay.Tests.Wire.{wire}

-- Keys are their texts; a hex key is refused, and one profile names the key `npub1`.
abbrev pub keys : Path.Keys
keys = record {
  PublicKey = Text;
  from_hex = λ s. err (codes "bad key");
  to_hex = λ k. k;
  from_bech32 = λ s.
      if s == codes "nprofile1"
      then ok (Path.profile (codes "npub1") (codes "wss://hint.test" ∷ []))
      else ok (Path.pubkey s);
}

abbrev pub parsed : Path.ParsedPath
parsed = record { hex = codes "npub1"; relay_hints = [] }

abbrev profiled : Path.ParsedPath
profiled = record { hex = codes "npub1"; relay_hints = codes "wss://hint.test" ∷ [] }

pub parsed_one : Path.parse_path keys (codes " npub1") ≡ ok parsed
unfolding Path.parse_path trim is_space len len_utf8 ◌==◌
parsed_one = refl

parsed_other : Path.parse_path keys (codes "nprofile1") ≡ ok profiled
unfolding Path.parse_path trim is_space len len_utf8 ◌==◌
parsed_other = refl

parsed-Names : Path.Names keys (trim (codes " npub1")) (codes "npub1")
unfolding trim is_space len len_utf8 ◌==◌ Path.looks_hex
parsed-Names = inr (refl, inl refl)

profiled-Names : Path.Names keys (trim (codes "nprofile1")) (codes "npub1")
unfolding trim is_space len len_utf8 ◌==◌ Path.looks_hex
profiled-Names = inr (refl, inr (codes "wss://hint.test" ∷ [], refl))

parse_path-Names_example :
    (pk : Text) × Path.Names keys (trim (codes " npub1")) pk × (codes "npub1" ≡ pk)
parse_path-Names_example = Path.parse_path-Names keys (codes " npub1") parsed parsed_one

-- A URL's canonical form is its text without a closing slash.
abbrev canonical : Text → Text
canonical [] = []
canonical (c ∷ []) = if eqb c b'/' then [] else c ∷ []
canonical (c ∷ d ∷ s) = c ∷ canonical (d ∷ s)

resolve_relay_urls-DialsAll_example :
    Urls.DialsAll
      (λ u. some (canonical u))
      (codes "ws://127.0.0.1:8086/")
      (codes "wss://nostr.wtf" ∷ [])
      (codes "wss://nostr.wtf/" ∷ codes "wss://relay.test" ∷ [])
      (Urls.resolve_relay_urls
        (λ u. some (canonical u))
        (codes "wss://nostr.wtf" ∷ [])
        []
        (codes "wss://nostr.wtf/" ∷ codes "wss://relay.test" ∷ [])
        (some (codes "ws://127.0.0.1:8086/")))
resolve_relay_urls-DialsAll_example =
    Urls.resolve_relay_urls-DialsAll (λ u. some (canonical u)) (codes "wss://nostr.wtf" ∷ []) []
      (codes "wss://nostr.wtf/" ∷ codes "wss://relay.test" ∷ []) (codes "ws://127.0.0.1:8086/")

-- Encryption is off, and the bound on the cache is none.
abbrev pub settings : Env
settings name =
    if name == codes "OUTLAY_SHIM_ENCRYPTION_MODE"
    then some (codes "disabled")
    else if name == codes "OUTLAY_SHIM_MAX_CACHED_OUTLAYS"
    then some (codes "0")
    else none

abbrev pub config : ShimConfig
config = shim_config settings disabled ephemeral none

pub config_is_read : read_shim_config settings ≡ ok config
unfolding read_shim_config ◌==◌ opt_string trim is_space
config_is_read = refl

read_shim_config-IsUsable_example : Usable.IsUsable config
read_shim_config-IsUsable_example = Usable.read_shim_config-IsUsable settings config config_is_read

read_shim_config-is_ok_iff_example : (Refusal.is_ok (read_shim_config settings) ≡ true) ↔ (
    Refusal.UnsetOrAmong Refusal.encryption_words
      (opt_string settings (codes "OUTLAY_SHIM_ENCRYPTION_MODE"))
    × Refusal.UnsetOrAmong Refusal.gift_wrap_words
        (opt_string settings (codes "OUTLAY_SHIM_GIFT_WRAP_MODE"))
    × Refusal.UnsetOrAmong Refusal.boolean_words
        (lowercase (opt_string settings (codes "OUTLAY_SHIM_RELAY"))))
read_shim_config-is_ok_iff_example = Refusal.read_shim_config-is_ok_iff settings

markup-render_html_example :
    Markup.markup (render_html wire (wire.string (codes "<script>")) (some (codes "wss://a\">")))
    ≡ Markup.markup (page [] (some []) [])
markup-render_html_example =
    Markup.markup-render_html wire (wire.string (codes "<script>")) (some (codes "wss://a\">"))

abbrev pub upgrade : Server.Request
upgrade = record { accept = none; upgrade = true; handshake = ok tt }

abbrev pub greeting : List Inbound
greeting = Inbound.text (codes "hello") ∷ Inbound.closed ∷ []
