-- ===== src/Shim/Transport.antt =====
-- `build_client` of crates/outlay-shim/src/transport.rs. The signer, the transport and the rmcp client
-- belong to `contextvm_sdk` and `rmcp` and are parameters; `norm_url` is that of `RelayUrl`. The
-- injection of a test pool is left out.
pub mod Connects
use outlay.Base.{ℕ, Bool, true, Option, some, none, List}
use outlay.Base.Res.{Result, ok, err, ◌>>=◌}
use outlay.Base.Text.{Text, codes}
use outlay.Env.{GiftWrapMode}
use outlay.Shim.Config.{EncryptionMode, ShimConfig}
use outlay.Shim.Path.{ParsedPath}
use outlay.Shim.Urls.{resolve_relay_urls}

-- `NostrClientTransportConfig`, as far as it is set.
pub record ClientConfig : Type 0 where
  pub server_pubkey : Text
  pub encryption_mode : EncryptionMode
  pub gift_wrap_mode : GiftWrapMode
  pub stateless : Bool
  pub open_stream : Bool
  -- seconds
  pub timeout : ℕ
  pub relay_urls : List Text

pub record Sdk : Type 1 where
  pub Signer : Type 0
  pub Transport : Type 0
  pub Handle : Type 0
  pub Client : Type 0
  pub from_sk : Text → Result Text Signer
  pub generate : Signer
  pub new : Signer → ClientConfig → Result Text Transport
  pub open_stream_handle : Transport → Handle
  -- `serve` under a timeout, in seconds: none where it elapses
  pub serve : ℕ → Transport → Option (Result Text Client)

unfoldable pub client_config :
    (Text → Option Text) → ShimConfig → ParsedPath → Option Text → ClientConfig
client_config norm_url cfg parsed loopback_url = record {
  server_pubkey = parsed.hex;
  encryption_mode = cfg.encryption_mode;
  gift_wrap_mode = cfg.gift_wrap_mode;
  stateless = true;
  open_stream = true;
  timeout = cfg.connect_timeout;
  relay_urls =
      resolve_relay_urls norm_url cfg.relay_urls cfg.public_urls parsed.relay_hints loopback_url;
}

module _ (K : Sdk) where
  open K use {Signer, Client, Handle}

  unfoldable pub signer_of : Option Text → Result Text Signer
  signer_of (some k) = K.from_sk k
  signer_of none = ok K.generate

  unfoldable pub started : Option (Result Text Client) → Result Text Client
  started none = err (codes "client transport startup timed out")
  started (some r) = r

  unfoldable pub build_client :
      (Text → Option Text) → ShimConfig → ParsedPath → Option Text → Result Text (Client × Handle)
  unfolding client_config signer_of started
  build_client norm_url cfg parsed loopback_url = do
    signer ← signer_of cfg.private_key
    transport ← K.new signer (client_config norm_url cfg parsed loopback_url)
    client ← started (K.serve cfg.connect_timeout transport)
    ok (client, K.open_stream_handle transport)
