-- ===== src/Startup/Main/Panics.antt =====
-- `main` of crates/outlay/src/main.rs: the panic of `expect("external upstream")`.
use outlay.Base.Text.{Text}
use outlay.Env.{Env}
