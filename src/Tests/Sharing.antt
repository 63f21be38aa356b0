-- ===== src/Tests/Sharing.antt =====
-- Callers of the transport cache that interleave: a run, and the theorems at it.
use outlay.Base.{true, some, none, Option, ℕ, [], ◌≡◌, refl, ap, map}
use outlay.Base.Res.{Result, ok}
use outlay.Base.Text.{Text, codes, ◌==◌}
use outlay.Shim.Cache.{lookup}
use outlay.Shim.Cache.Callers.{
  answered, building, World, init, arrive, read, begin, built, Reach, start, later, found, entered,
  filled, became,
}
use outlay.Shim.Cache.Callers.Owners
use outlay.Env.{opt_string}
use outlay.Shim.Config.{shim_config}
use outlay.Shim.Conn.{handle_frames}
use outlay.Shim.Path.{ParsedPath, parse_path}
use outlay.Shim.Session.{handle_ws, with_path, hand}
use outlay.Shim.Session.Reaches
use outlay.Shim.Transport.{Sdk, build_client}
use outlay.Shim.Transport.Connects
use outlay.Tests.Routes.{config, parsed, parsed_one, keys, greeting}
use outlay.Tests.Wire.{wire}
use outlay.Tests.Once.{once}
use outlay.Tests.Bridge.{large, large-IsLru}

-- The transport of an identity is its own name.
abbrev Names : Text → Text → Type 0
Names k t = t ≡ k

abbrev W : Type 0
W = World large once Names

abbrev start_world : W
start_world = init large once Names []

abbrev key : Text
key = codes "k"

-- Two callers for one identity: both arrive on an empty cache, and the first one begins to build.
abbrev two_arrived : W
two_arrived = found large once Names 1 key (found large once Names 0 key start_world)

abbrev one_builds : W
one_builds = entered large once Names 0 0 (none, true) (building key 0) two_arrived

abbrev both_answered : W
both_answered =
    became large once Names 1 (answered key 0 (ok key))
      (filled large once Names 0 key 0 key one_builds)

one_builds-Reach : Reach large once Names [] one_builds
unfolding lookup ◌==◌
one_builds-Reach =
    later (later (later start (arrive 0 key refl)) (arrive 1 key refl))
      (begin 0 key 0 (none, true) refl refl)

both_answered-Reach : Reach large once Names [] both_answered
unfolding lookup ◌==◌
both_answered-Reach =
    later (later one_builds-Reach (built 0 key 0 key refl refl)) (read 1 key 0 key refl refl)

Reach-Isolated_example :
    ((i : ℕ) (k : Text) (n : ℕ) (t : Text)
      → both_answered.tasks i ≡ answered k n (ok t)
      → Names k t)
    × ((i j : ℕ) (k l : Text) (n : ℕ) (t u : Text)
        → both_answered.tasks i ≡ answered k n (ok t)
        → both_answered.tasks j ≡ answered l n (ok u)
        → (k ≡ l) × (t ≡ u))
Reach-Isolated_example =
    Owners.Reach-Isolated large large-IsLru once Names (λ k. refl) both_answered-Reach

-- Signers, transports and clients that are known by their texts.
abbrev sdk : Sdk
sdk = record {
  Signer = Text;
  Transport = Text;
  Handle = Text;
  Client = Text;
  from_sk = λ k. ok k;
  generate = codes "fresh";
  new = λ signer c. ok c.server_pubkey;
  open_stream_handle = λ transport. transport;
  serve = λ seconds transport. some (ok transport);
}

abbrev canonical : Text → Option Text
canonical u = some u

abbrev Built : Text → Text × Text → Type 0
Built = Connects.Builds sdk canonical config none

built_client : Built (codes "npub1") (codes "npub1", codes "npub1")
unfolding build_client shim_config opt_string ◌==◌
built_client = (parsed, refl, refl)

abbrev npub : Text
npub = codes "npub1"

abbrev asked : World large once Built
asked =
    entered large once Built 0 0 (none, true) (building npub 0)
      (found large once Built 0 npub (init large once Built []))

abbrev connected : World large once Built
connected = filled large once Built 0 npub 0 (npub, npub) asked

connected-Reach : Reach large once Built [] connected
unfolding lookup
connected-Reach =
    later (later (later start (arrive 0 npub refl)) (begin 0 npub 0 (none, true) refl refl))
      (built 0 npub 0 (npub, npub) refl built_client)

-- The one connection that came to be answered is that of a client at ` npub1`.
abbrev get_npub : ParsedPath → Result Text (Text × Text)
get_npub p = ok (npub, npub)

npub_task :
    (p : ParsedPath)
    → parse_path keys (codes " npub1") ≡ ok p
    → connected.tasks 0 ≡ answered p.hex 0 (get_npub p)
unfolding lookup
npub_task p h =
    let e : parsed ≡ p = cc (h, parsed_one) in
    ap (λ (x : ParsedPath). answered x.hex 0 (get_npub x)) e

handle_ws-Reaches_example :
    Reaches.Reaches keys wire sdk canonical config none
      (codes " npub1")
      greeting
      (map (hand wire (npub, npub)) (handle_frames wire greeting))
unfolding handle_ws
handle_ws-Reaches_example =
    Reaches.handle_ws-Reaches keys wire sdk canonical config none large large-IsLru once []
      (λ k. refl) connected-Reach get_npub 0 0 (codes " npub1") npub_task greeting
      (map (hand wire (npub, npub)) (handle_frames wire greeting)) (rw (parsed_one, with_path) refl)
