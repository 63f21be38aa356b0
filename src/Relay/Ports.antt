-- ===== src/Relay/Ports.antt =====
-- `bind_with_port_scan` of crates/outlay-relay/src/lib.rs: its `u16` arithmetic stays in range.
use outlay.Base.{
  ℕ, zero, suc, ◌+◌, ◌≤◌, ◌<◌, ◌^◌, Option, some, none, List, [], ◌∷◌, ◌≡◌, ◌≢◌, refl, inl, inr,
  arith, length, All,
}
use outlay.Base.Res.{Result, ok, err, Result-cases}
use outlay.Base.Text.{Text}
use outlay.Relay.Bind.{
  BindError, port_range_overflow, no_free_port, plan, scan, bind_with_port_scan,
}
use outlay.Relay.Scan.{checked_add_base, bind_with_port_scan_fixed, fixed_answer}

-- A port that a relay can have.
abbrev pub IsPort : ℕ → Type 0
IsPort c = (0 < c) × (c < 2 ^ 16)

-- Of a run that tries at most `n` ports: they are ports, `checked_add` never fails, and the sum
-- `start + tries` of the last message is reached only where it fits.
pub record InRange (port n : ℕ) (r : List ℕ × Result BindError (ℕ × Text)) : Type 0 where
  pub ports : All IsPort (r.0)
  pub few : length (r.0) ≤ n
  pub adds : r.1 ≢ err port_range_overflow
  pub message :
      (low high : ℕ) (last : Text)
      → r.1 ≡ err (no_free_port low high last)
      → (plan port).0 + (plan port).1 < 2 ^ 16

module _ (run : ℕ → Result Text Text) where
  scan-InRange :
      (rounds offset : ℕ) (last_err : Option Text)
      → offset + rounds ≡ 50
      → InRange 0 rounds (scan run 0 8086 50 rounds offset last_err)
  unfolding scan plan
  scan-InRange zero offset last_err h = record {
    ports = tt;
    few = omega arith;
    adds = λ e. cc;
    message = λ low high last e. omega arith;
  }
  scan-InRange (suc rounds) offset last_err h = elim (Result-cases (run (8086 + offset))) [
    | inl (url, e) ↦
        rw (checked_add_base run offset (omega arith), e, scan)
          (record {
            ports = ((omega arith, omega arith), tt);
            few = omega arith;
            adds = λ e. cc;
            message = λ low high last e. omega arith;
          })
    | inr (x, e) ↦
        let r = scan-InRange rounds (suc offset) (some x) (omega arith) in
        rw (checked_add_base run offset (omega arith), e, scan)
          (record {
            ports = ((omega arith, omega arith), r.ports);
            few = omega (arith, r.few);
            adds = r.adds;
            message = r.message;
          })
  ]

  fixed-InRange :
      (port : ℕ) (a : Result Text Text)
      → IsPort port
      → InRange port 1 (port ∷ [], fixed_answer run port a)
  fixed-InRange port (ok url) p = record {
    ports = (p, tt);
    few = omega arith;
    adds = λ e. cc;
    message = λ low high last e. cc;
  }
  fixed-InRange port (err x) p = record {
    ports = (p, tt);
    few = omega arith;
    adds = λ e. cc;
    message = λ low high last e. cc;
  }

module _ {Database : Type 0} (run : Database → ℕ → Result Text Text) (db : Database) where
  -- Whatever port is asked for, the scan tries at most fifty, each of them a port from 1 to 65535;
  -- `checked_add` never overflows; and the sum `start + tries` in the message of the last error, which
  -- nothing guards, is computed only where it fits a `u16`.
  pub bind_with_port_scan-InRange :
      (port : ℕ) → port < 2 ^ 16 → InRange port 50 (bind_with_port_scan run db port)
  unfolding bind_with_port_scan plan
  bind_with_port_scan-InRange zero h = scan-InRange (run db) 50 0 none refl
  bind_with_port_scan-InRange (suc n) h =
      let r = fixed-InRange (run db) (suc n) (run db (suc n)) (omega arith, h) in
      rw (bind_with_port_scan_fixed run db (suc n) (omega arith) h)
        (record { ports = r.ports; few = omega (arith, r.few); adds = r.adds; message = r.message })
