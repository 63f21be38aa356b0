-- ===== src/Tests/Upstream.antt =====
-- The rest of outlay and its bundled relay: the theorems at concrete inputs.
use outlay.Base.{leb, ℕ, true, Option, some, none, List, [], ◌∷◌, ◌≡◌, ◌↔◌, refl, if◌then◌else◌}
use outlay.Base.Res.{Result, ok, err}
use outlay.Base.Text.{trim, is_space, strip_prefix, split, Text, codes, ◌==◌}
use outlay.Env.{opt_string, Env, ephemeral}
use outlay.Config.{ServerConfig, server_config, read_server_config}
use outlay.Config.Usable
use outlay.Handler.{Upstream}
use outlay.Proxy.Info.{overlay_proxy_info, Response}
use outlay.Proxy.Origin
use outlay.Proxy.Overlay
use outlay.Proxy.Publish.{Sent, answered, PublishOutcome}
use outlay.Relay.Bind.{bind_with_port_scan}
use outlay.Relay.Scan
use outlay.Relay.Spawn.{Database, memoryless}
use outlay.Tests.Wire.{wire, wire_maps}
use outlay.Tests.Streams.{plain, ending}

pub origin_of_relay :
    Origin.nip11_origin (codes "wss://relay.test/path") ≡ some (codes "https://relay.test")
unfolding Origin.nip11_origin strip_prefix split
origin_of_relay = refl

nip11_origin_iff_example :
    (Origin.nip11_origin (codes "wss://relay.test/path") ≡ some (codes "https://relay.test"))
    ↔ Origin.IsOrigin (codes "wss://relay.test/path") (codes "https://relay.test")
nip11_origin_iff_example =
    Origin.nip11_origin_iff (codes "wss://relay.test/path") (codes "https://relay.test")

abbrev upstream_map : wire.Map
upstream_map =
    wire.insert (codes "software") (wire.string (codes "strfry"))
      (wire.insert (codes "name") (wire.string (codes "up")) wire.empty)

overlay_proxy_info-IsOverlay_example :
    (out : wire.Map) × (overlay_proxy_info wire (codes "1.0") (wire.object upstream_map)
      ≡ some (wire.object out))
    × Overlay.IsOverlay wire (codes "1.0") upstream_map out
overlay_proxy_info-IsOverlay_example =
    Overlay.overlay_proxy_info-IsOverlay wire (codes "1.0") wire_maps (wire.object upstream_map)
      upstream_map refl

abbrev pub response : Text → Option (Response wire)
response url = some (record { is_success = true; json = some (wire.object upstream_map) })

-- 8086 and 8087 are taken.
abbrev machine : Database → ℕ → Result Text Text
machine db port = if leb port 8087 then err (codes "in use") else ok (codes "ws://127.0.0.1/")

bind_with_port_scan-IsScan_example :
    Scan.IsScan (machine memoryless) 8086 8136 (bind_with_port_scan machine memoryless 0).1
bind_with_port_scan-IsScan_example = Scan.bind_with_port_scan-IsScan machine memoryless

abbrev up : Upstream wire plain
up = record { upstream_id = codes "u1"; subscribed = ok tt; turns = ending; active = true }

abbrev filters : List wire.Value
filters = wire.string (codes "f") ∷ []

abbrev taken : Text → Sent
taken e = answered (record { success = codes "wss://up.test" ∷ []; failed = [] })

abbrev report : PublishOutcome wire plain
report = record { ok = true; event_id = codes "hello"; message = [] }

-- Only the announcement is set.
abbrev pub announced : Env
announced name = if name == codes "OUTLAY_ANNOUNCED" then some (codes " 1 ") else none

abbrev pub read_config : ServerConfig
read_config = server_config true announced none ephemeral (some true)

pub config_is_read : read_server_config true announced ≡ ok read_config
unfolding read_server_config ◌==◌ opt_string trim is_space
config_is_read = refl

read_server_config-IsUsable_example : Usable.IsUsable true read_config
read_server_config-IsUsable_example =
    Usable.read_server_config-IsUsable true announced read_config config_is_read
