-- ===== src/Tests.antt =====
-- Runs on concrete inputs, and the theorems at inputs that meet their hypotheses.
mod Wire
mod Once
mod Streams
mod Upstream
mod Bridge
mod Routes
mod Sharing
mod Channels
mod Connected
mod Starts
mod Streamed
mod Settings
mod Units
