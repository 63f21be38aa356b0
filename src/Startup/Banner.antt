-- ===== src/Startup/Banner.antt =====
-- `print_banner` and `build_transport_config` of crates/outlay/src/main.rs.
use outlay.Base.{
  ℕ, zero, suc, Bool, true, Option, some, none, List, [], ◌∷◌, ◌++◌, ◌≡◌, ◌≢◌, refl, map, first,
}
use outlay.Base.Opt.{unwrap_or}
use outlay.Base.Res.{ok}
use outlay.Base.Text.{Text, codes}
use outlay.Config.{ServerConfig, read_server_config}
use outlay.Config.Usable.{read_server_config-IsUsable}
use outlay.Env.{Env, GiftWrapMode}
use outlay.Startup.{https_url, https_url-IsWeb, IsWeb}

-- The settings of the ContextVM transport; its encryption is `EncryptionMode::Optional`.
pub record TransportConfig : Type 0 where
  pub name : Text
  pub about : Text
  pub relay_urls : List Text
  pub announced : Bool
  pub gift_wrap_mode : GiftWrapMode
  pub open_stream : Bool
  pub idle_timeout_ms : ℕ
  pub probe_timeout_ms : ℕ

unfoldable pub build_transport_config : ServerConfig → TransportConfig
build_transport_config cfg = record {
  name = cfg.server_name;
  about = unwrap_or cfg.server_about [];
  relay_urls = cfg.cvm_relay_urls;
  announced = cfg.is_announced;
  gift_wrap_mode = cfg.gift_wrap_mode;
  open_stream = true;
  idle_timeout_ms = 60000;
  probe_timeout_ms = 60000;
}

-- `str::repeat`
abbrev pub repeat : ℕ → Text → Text
repeat zero s = []
repeat (suc n) s = s ++ repeat n s

unfoldable pub page_url : Text → ServerConfig → Option Text
page_url server_pubkey cfg = elim (first cfg.cvm_relay_urls) [
  | none ↦ none
  | some r ↦ some (https_url r ++ codes "/" ++ server_pubkey)
]

unfoldable pub page_lines : Option Text → List Text
page_lines none = []
page_lines (some page) = (codes "   page            " ++ page) ∷ []

abbrev pub rule_line : Text
rule_line = codes "  " ++ repeat 64 (codes "═")

-- `.join("\n")`
abbrev pub join : List Text → Text
join [] = []
join (s ∷ []) = s
join (s ∷ t ∷ rest) = s ++ b'\n' ∷ join (t ∷ rest)

-- What each `println!` is given.
unfoldable pub banner : Text → ServerConfig → Text → List Text
unfolding page_lines page_url
banner server_pubkey cfg upstream_url =
    ([]
      ∷ rule_line
      ∷ codes "   outlay — Nostr relay over ContextVM"
      ∷ rule_line
      ∷ []
      ∷ (codes "   server pubkey   " ++ server_pubkey)
      ∷ [])
    ++ page_lines (page_url server_pubkey cfg)
    ++ ([]
        ∷ codes "   CVM relays (listening)"
        ∷ join (map (λ r. codes "     • " ++ r) cfg.cvm_relay_urls)
        ∷ []
        ∷ codes "   upstream relay (proxied)"
        ∷ (codes "     • " ++ upstream_url)
        ∷ []
        ∷ [])

page_of_first :
    (server_pubkey : Text) (cfg : ServerConfig) (urls : List Text)
    → cfg.cvm_relay_urls ≡ urls
    → urls ≢ []
    → (site : Text) × IsWeb site
      × (page_url server_pubkey cfg ≡ some (site ++ codes "/" ++ server_pubkey))
unfolding page_url
page_of_first server_pubkey cfg [] h ne = absurd (ne refl)
page_of_first server_pubkey cfg (u ∷ us) h ne = (https_url u, https_url-IsWeb u, rw h)

-- Of a configuration that was read the banner always shows a page, and it is a web address whose last
-- segment is the public key of the server.
pub page_url-IsPage :
    (bundled_relay : Bool) (env : Env) (cfg : ServerConfig) (server_pubkey : Text)
    → read_server_config bundled_relay env ≡ ok cfg
    → (site : Text) × IsWeb site
      × (page_url server_pubkey cfg ≡ some (site ++ codes "/" ++ server_pubkey))
page_url-IsPage bundled_relay env cfg server_pubkey h =
    page_of_first server_pubkey cfg cfg.cvm_relay_urls refl
      (read_server_config-IsUsable bundled_relay env cfg h).relays.1
