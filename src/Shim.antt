-- ===== src/Shim.antt =====
-- crates/outlay-shim: the bridge from vanilla NIP-01 clients to an outlay server.
pub mod Translate
pub mod Args
pub mod Frames
pub mod Conn
pub mod Publish
pub mod Live
pub mod EndToEnd
pub mod Streaming
pub mod Path
pub mod Urls
pub mod Pipe
pub mod Escape
pub mod Page
pub mod Config
pub mod Cache
pub mod Transport
pub mod Server
pub mod Document
pub mod Session
pub mod Startup
