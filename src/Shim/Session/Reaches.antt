-- ===== src/Shim/Session/Reaches.antt =====
-- `handle_ws` of crates/outlay-shim/src/conn.rs with the path of path.rs and the transport of
-- transport.rs: to which server a connection speaks.
use outlay.Base.{ℕ, Option, List, ◌≡◌, sym, ◌∙◌, ap, map, All}
use mathlib.Core.Path.{subst}
use outlay.Base.Res.{Result, ok}
use outlay.Base.Text.{Text, trim}
use outlay.Json.{Json}
use outlay.Shim.Cache.{Lru, IsLru, OnceCell}
use outlay.Shim.Cache.Callers.{World, Reach, answered}
use outlay.Shim.Cache.Callers.Owners.{IsEmpty}
use outlay.Shim.Config.{ShimConfig}
use outlay.Shim.Conn.{Inbound, handle_frames}
use outlay.Shim.Path.{Keys, ParsedPath, Names, parse_path, parse_path-Names}
use outlay.Shim.Session.{
  Work, handle_ws, served, effect, IsOver, handle_ws-served_iff, map-effect-hand, All-hand,
}
use outlay.Shim.Transport.{Sdk, client_config}
use outlay.Shim.Transport.Connects.{IsClientOf, Builds, Reach-IsClientOf}

module _ (K : Keys) (J : Json) (S : Sdk) (norm_url : Text → Option Text) (cfg : ShimConfig)
    (loopback_url : Option Text) where
  abbrev pub Peer : Type 0
  Peer = S.Client × S.Handle

  abbrev pub Built : Text → Peer → Type 0
  Built = Builds S norm_url cfg loopback_url

  -- What is done for the frames of a connection at the segment `raw`, and over which transport.
  pub record Reaches (raw : Text) (frames : List Inbound) (work : List (Work J Peer)) : Type 0 where
    pub key : K.PublicKey
    -- the segment names the server,
    pub names : Names K (trim raw) key
    -- a transport with these settings is addressed to it,
    pub parsed : ParsedPath
    pub addressed : (client_config norm_url cfg parsed loopback_url).server_pubkey ≡ K.to_hex key
    -- every task that calls the server has the client and the handle of such a transport,
    pub over : All (IsOver J (IsClientOf S norm_url cfg loopback_url parsed)) work
    -- and the work is that of the frames
    pub handled : map (effect J) work ≡ handle_frames J frames

  -- However the connections of the shim share its transports and build them at the same time, a
  -- connection whose frames are served does the work of these frames, and every task that it spawns
  -- for a subscription or a publication is given a client and a handle of one transport that was made
  -- for the key of the server that its own path names.
  pub handle_ws-Reaches :
      (L : Lru) (law : IsLru L) (O : OnceCell Peer) (entries : L.Cache) {w : World L O Built}
      → IsEmpty L law O Built entries
      → Reach L O Built entries w
      → (get : ParsedPath → Result Text Peer) (i n : ℕ) (raw : Text)
      → ((p : ParsedPath) → parse_path K raw ≡ ok p → w.tasks i ≡ answered p.hex n (get p))
      → (frames : List Inbound) (work : List (Work J Peer))
      → handle_ws K J get raw frames ≡ served work
      → Reaches raw frames work
  handle_ws-Reaches L law O entries {w} empty r get i n raw task frames work h =
      let (p, peer, path, got, done) = (handle_ws-served_iff K J get raw frames work).0 h in
      let (pk, names, hex) = parse_path-Names K raw p path in
      let answer : w.tasks i ≡ answered p.hex n (ok peer) = cc (task p path) in
      let (parsed, connected, addressed, _, _) =
        Reach-IsClientOf S norm_url cfg loopback_url L law O entries empty r i p.hex n peer
          answer in
      let Over = IsOver J (IsClientOf S norm_url cfg loopback_url parsed) in
      record {
        key = pk;
        names = names;
        parsed = parsed;
        addressed = addressed ∙ hex;
        over =
            subst (λ x. All Over x) (sym done)
              (All-hand J _ peer connected (handle_frames J frames));
        handled = ap (λ x. map (effect J) x) done ∙ map-effect-hand J peer (handle_frames J frames);
      }
