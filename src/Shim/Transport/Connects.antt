-- ===== src/Shim/Transport/Connects.antt =====
-- `build_client` and `TransportCache::get` of crates/outlay-shim/src/transport.rs together: to which
-- server a cached transport is connected.
use outlay.Base.{ℕ, true, Option, ◌≡◌, refl, sym, ◌∙◌, ap}
use outlay.Base.Res.{ok, >>=-eq-ok}
use outlay.Base.Text.{Text}
use outlay.Shim.Cache.{Lru, IsLru, OnceCell}
use outlay.Shim.Cache.Callers.{World, Reach, answered}
use outlay.Shim.Cache.Callers.Owners.{IsEmpty, Reach-Isolated}
use outlay.Shim.Config.{ShimConfig}
use outlay.Shim.Path.{ParsedPath}
use outlay.Shim.Transport.{Sdk, client_config, signer_of, started, build_client}

module _ (K : Sdk) (norm_url : Text → Option Text) (cfg : ShimConfig)
    (loopback_url : Option Text) where
  open K use {Signer, Transport, Client, Handle}

  -- A client and a handle of one transport, made with the settings of a path.
  pub record IsClientOf (parsed : ParsedPath) (t : Client × Handle) : Type 0 where
    pub signer : Signer
    pub transport : Transport
    pub signs : signer_of K cfg.private_key ≡ ok signer
    pub made : K.new signer (client_config norm_url cfg parsed loopback_url) ≡ ok transport
    pub serves : started K (K.serve cfg.connect_timeout transport) ≡ ok t.0
    pub handle : t.1 ≡ K.open_stream_handle transport

  build_client-IsClientOf :
      (parsed : ParsedPath) (t : Client × Handle)
      → build_client K norm_url cfg parsed loopback_url ≡ ok t
      → IsClientOf parsed t
  unfolding build_client
  build_client-IsClientOf parsed t h =
      let (signer, p, r) = >>=-eq-ok (signer_of K cfg.private_key) _ h in
      let (transport, q, s) =
        >>=-eq-ok (K.new signer (client_config norm_url cfg parsed loopback_url)) _ r in
      let (client, u, v) = >>=-eq-ok (started K (K.serve cfg.connect_timeout transport)) _ s in
      let e : (client, K.open_stream_handle transport) ≡ t = cc (v) in
      record {
        signer = signer;
        transport = transport;
        signs = p;
        made = q;
        serves = u ∙ ap (λ c. ok (c.0)) e;
        handle = sym (ap (λ c. c.1) e);
      }

  -- What `build_client` can answer for an identity: its path may be any that names it.
  abbrev pub Builds : Text → Client × Handle → Type 0
  Builds k t =
      (parsed : ParsedPath) × (parsed.hex ≡ k)
      × (build_client K norm_url cfg parsed loopback_url ≡ ok t)

  -- However the calls of the cache interleave, a caller for an identity that is answered gets a client
  -- and a handle of one and the same transport, which was made for the key of that identity, in
  -- stateless mode with open streams, and was started in time.
  pub Reach-IsClientOf :
      (L : Lru) (law : IsLru L) (O : OnceCell (Client × Handle)) (entries : L.Cache)
      {w : World L O Builds}
      → IsEmpty L law O Builds entries
      → Reach L O Builds entries w
      → (i : ℕ) (k : Text) (n : ℕ) (t : Client × Handle) → w.tasks i ≡ answered k n (ok t)
      → (parsed : ParsedPath) × IsClientOf parsed t
        × ((client_config norm_url cfg parsed loopback_url).server_pubkey ≡ k)
        × ((client_config norm_url cfg parsed loopback_url).stateless ≡ true)
        × ((client_config norm_url cfg parsed loopback_url).open_stream ≡ true)
  unfolding client_config
  Reach-IsClientOf L law O entries empty r i k n t h =
      let (parsed, key, built) = (Reach-Isolated L law O Builds empty r).0 i k n t h in
      (parsed, build_client-IsClientOf parsed t built, key, refl, refl)
