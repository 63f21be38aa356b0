-- ===== src/Lib.antt =====
-- outlay: a Nostr relay over ContextVM, and its bridge to vanilla NIP-01 clients.
--
-- The repository has three crates. `outlay` (crates/outlay) is an rmcp server whose three tools,
-- `subscribe`, `publish_event` and `relay_info`, proxy one upstream Nostr relay: a subscription is
-- one open-stream call, and each notification of the relay pool that carries the subscription's
-- upstream id becomes one chunk of that stream. `outlay-shim` (crates/outlay-shim) takes WebSocket
-- connections of vanilla clients at /<server-pubkey>, turns REQ, CLOSE and EVENT into calls of those
-- tools over a cached transport per identity, serves NIP-11 documents over HTTP, and pipes its root
-- path to a colocated relay. `outlay-relay` (crates/outlay-relay) is that relay, and the bundled
-- upstream of outlay.
--
-- The files, and the code that each models:
--   Base, Env                texts, lists, results; `opt_string`, the lists of URLs and `load` of both
--                            crates' config.rs
--   Json, Nostr              the parts of serde_json and nostr_sdk that the code uses: parameters
--   Proxy                    crates/outlay/src/proxy.rs: `ProxyError`, `map_notification`, `chunk`
--   Proxy/Subscribe          `Proxy::subscribe`, and Chunks, Stream, Isolation, Delivery about it
--   Proxy/Publish            `Proxy::publish_event`
--   Proxy/Origin, Info       `nip11_origin`, `overlay_proxy_info`, `Proxy::relay_info`, and Overlay
--                            and RelayInfo about them
--   Handler                  crates/outlay/src/handler.rs: the three tools; Answers about them
--   Config                   crates/outlay/src/config.rs
--   Startup                  crates/outlay/src/main.rs: the choice of the upstream and `https_url`;
--                            Banner is `print_banner` and `build_transport_config`, Main is `main`
--                            with `Proxy::new`, and Script and Panics are about it
--   Relay                    crates/outlay-relay/src/lib.rs: `MemorylessDatabase` (Memoryless),
--                            `bind_with_port_scan` (Bind, with Scan and Ports about it) and
--                            `BundledRelay::spawn` (Spawn)
--   Shim/Translate, Frames   crates/outlay-shim/src/translate.rs
--   Shim/Conn                crates/outlay-shim/src/conn.rs: the frame loop of `handle_ws` (Subs,
--                            Tasks, View about it), `subscribe_loop` (Loop), that task with its
--                            cancel signal (Cancel), and the writer task with its channel (Writer)
--   Shim/Live                `handle_ws` from the frame loop on as it runs: that loop, the tasks that it
--                            spawns, the channel and the writer in one step relation; Workers,
--                            Names, Invariant, Carried, Frames, Steps and Tracked are about its tasks
--                            and their signals, Work and Closes about its end, Said, Outputs and
--                            Delivered about what the client gets of what a task outputs, Heard,
--                            Heeding and Verbatim about what it gets of what the server brings,
--                            Shapes and Typed about the frames that the shim makes itself
--   Shim/Session             `handle_ws` from the path to the frame loop, and `close_with_notice`;
--                            Reaches about it, with the cache and `build_client`
--   Shim/Publish, EndToEnd   `publish_once` of conn.rs, and its composition with outlay's tool
--   Shim/Streaming           a subscription from the client's frame to the upstream and back:
--                            `SubscribeParams` of handler.rs and all between; Shim/Args is `args` of
--                            transport.rs
--   Shim/Cache               crates/outlay-shim/src/transport.rs: `TransportCache::get`, one call at a
--                            time, and in Callers the parts of many calls interleaved
--   Shim/Transport, Urls     transport.rs: `build_client` and `resolve_relay_urls`
--   Shim/Path                crates/outlay-shim/src/path.rs
--   Shim/Pipe                crates/outlay-shim/src/relay.rs
--   Shim/Page, Escape        crates/outlay-shim/src/nip11.rs; the fetch of a document is in Server
--   Shim/Server, Document    crates/outlay-shim/src/server.rs; a document from the upstream to the page
--   Shim/Startup             crates/outlay-shim/src/main.rs, with `spawn` of relay.rs and
--                            `AppState::new` of server.rs
--   Shim/Config              crates/outlay-shim/src/config.rs
--   Tests                    concrete instances of the parameters, and the theorems at them; Settings
--                            and Units have the unit tests of the sources, run on the model
--
-- How the code is read. A text is the list of its code points. Sequential asynchronous code is a
-- function of what its `select!`s and awaits come to, given as a list of rounds, to the list of
-- its calls and its answer; `none` for the answer stands for a run that still waits at the end of
-- its list, and the theorems on streams say when that is. What runs at the same time is a step
-- relation on the shared state, and the theorems hold of every reachable state: the callers of the
-- transport cache, the senders and the writer of a connection, a subscription task and its cancel
-- signal, and a connection with all of its tasks. What a start does is a trace of actions beside
-- its result. No function runs on fuel but the port scan, whose rounds are its own loop's 50 or 1.
-- `u16`, `u64` and `usize` have 16, 64 and 64 bits; a number that does not fit is refused by
-- `parse`, as in the source, and `checked_add` of the port scan is written out. A panic of
-- `expect` is a value, and is shown not to be reached.
--
-- Third-party code is a parameter: serde_json and nostr_sdk (records with named laws where a
-- theorem needs one), the relay pool, the HTTP client, the stream between the two programs, the LRU
-- map, tokio's `OnceCell`, NIP-19, the SDK's signers and transports, the file system and the SQLite database, the
-- WebSocket handshake, and whether a port can be bound. Not modelled: what the SDK's transports do
-- on the relays, logging, signal handling, timeouts as durations, axum's routing, and the injection
-- of a relay pool by tests.
pub mod Base
pub mod Env
pub mod Config
pub mod Startup
pub mod Json
pub mod Nostr
pub mod Proxy
pub mod Handler
pub mod Relay
pub mod Shim
mod Tests
