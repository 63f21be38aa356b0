-- ===== src/Relay/Scan.antt =====
-- What the port scan of crates/outlay-relay/src/lib.rs finds, and when it fails.
use outlay.Base.{
  ℕ, zero, suc, ◌+◌, ◌≤◌, ◌<◌, Option, some, none, [], ◌∷◌, ◌≡◌, refl, inl, inr, arith, ◌^◌,
}
use mathlib.Core.Path.{subst}
use native.Mathlib.Nat.{add-suc, add-zero}
use outlay.Base.Res.{Result, ok, err, Result-cases}
use native.Mathlib.Decide.{ℕ_discrete}
use outlay.Base.Text.{Text}
use outlay.Relay.Bind.{
  checked_add, BindError, failed_to_bind, no_free_port, plan, scan, bind_with_port_scan,
}

module _ (run : ℕ → Result Text Text) where
  -- No relay runs on the ports from `low` up to `high`.
  abbrev pub Busy : ℕ → ℕ → Type 0
  Busy low high = (i : ℕ) → low ≤ i → i < high → (e : Text) × (run i ≡ err e)

  -- What the scan from `low` to `high` has to answer.
  abbrev pub IsScan : ℕ → ℕ → Result BindError (ℕ × Text) → Type 0
  IsScan low high (ok (c, url)) = (low ≤ c) × (c < high) × (run c ≡ ok url) × Busy low c
  IsScan low high (err e) = Busy low high × ((last : Text) × (e ≡ no_free_port 8086 8135 last))

  Busy-cons : (low c : ℕ) (e : Text) → run low ≡ err e → Busy (suc low) c → Busy low c
  Busy-cons low c e h b i p q = elim (ℕ_discrete i low) [
    | yes same ↦ (e, rw same h)
    | no other ↦ b i (omega arith) q
  ]

  IsScan-cons :
      (low high : ℕ) (e : Text) (r : Result BindError (ℕ × Text))
      → low < high
      → run low ≡ err e
      → IsScan (suc low) high r
      → IsScan low high r
  IsScan-cons low high e (ok (c, url)) p h (a, b, g, busy) =
      (omega arith, b, g, Busy-cons low c e h busy)
  IsScan-cons low high e (err x) p h (busy, last) = (Busy-cons low high e h busy, last)

  pub checked_add_base : (offset : ℕ) → offset < 50 → checked_add 8086 offset ≡ some (8086 + offset)
  unfolding checked_add
  checked_add_base offset h = ground arith

  scan-IsScan :
      (rounds offset : ℕ) (last_err : Option Text)
      → offset + rounds ≡ 50
      → IsScan (8086 + offset) 8136 (scan run 0 8086 50 rounds offset last_err).1
  unfolding scan
  scan-IsScan zero offset last_err h = (λ i p q. absurd (omega arith), (_, refl))
  scan-IsScan (suc rounds) offset last_err h = elim (Result-cases (run (8086 + offset))) [
    | inl (url, e) ↦
        rw (checked_add_base offset (omega arith), e, scan)
          (omega arith, omega arith, e, λ i p q. absurd (omega arith))
    | inr (x, e) ↦
        rw (checked_add_base offset (omega arith), e, scan)
          (IsScan-cons (8086 + offset) 8136 x _ (omega arith) e (
            subst (λ n. IsScan n 8136 (scan run 0 8086 50 rounds (suc offset) (some x)).1)
              (add-suc 8086 offset) (scan-IsScan rounds (suc offset) (some x) (omega arith))))
  ]

  abbrev pub fixed_answer : ℕ → Result Text Text → Result BindError (ℕ × Text)
  fixed_answer port (ok url) = ok (port, url)
  fixed_answer port (err e) = err (failed_to_bind port e)

  plan_fixed : (port : ℕ) → 0 < port → plan port ≡ (port, 1)
  unfolding plan
  plan_fixed port h = ground arith

  checked_add_zero : (port : ℕ) → port < 2 ^ 16 → checked_add port 0 ≡ some port
  unfolding checked_add
  checked_add_zero port h = ground (arith, add-zero port)

  scan_once :
      (port : ℕ)
      → 0 < port
      → checked_add port 0 ≡ some port
      → scan run port port 1 1 0 none ≡ (port ∷ [], fixed_answer port (run port))
  unfolding scan
  scan_once port h e = elim (Result-cases (run port)) [
    | inl (url, r) ↦ rw (e, r, scan)
    | inr (x, r) ↦ rw (e, r, scan) (ground arith)
  ]

module _ {Database : Type 0} (run : Database → ℕ → Result Text Text) (db : Database) where
  -- Without a port of its own the bundled relay takes the lowest free one of 8086 to 8135, and it
  -- fails only if all fifty are busy, with the error of the range.
  pub bind_with_port_scan-IsScan : IsScan (run db) 8086 8136 (bind_with_port_scan run db 0).1
  unfolding bind_with_port_scan
  bind_with_port_scan-IsScan = scan-IsScan (run db) 50 0 none refl

  -- A fixed port is tried exactly once, and its answer is the whole answer: no other port is taken
  -- when it is busy.
  pub bind_with_port_scan_fixed :
      (port : ℕ)
      → 0 < port
      → port < 2 ^ 16
      → bind_with_port_scan run db port ≡ (port ∷ [], fixed_answer (run db) port (run db port))
  unfolding bind_with_port_scan
  bind_with_port_scan_fixed port h k =
      rw (plan_fixed (run db) port h, bind_with_port_scan)
        (scan_once (run db) port h (checked_add_zero (run db) port k))
