-- ===== src/Relay/Bind.antt =====
-- `bind_with_port_scan` of crates/outlay-relay/src/lib.rs. `LocalRelay` is not part of the
-- repository: whether it can run on a port, with the URL that it then reports or the text of the
-- error, is a parameter, for each database that it can be given. Ports are `u16`.
use outlay.Base.{
  ltb, eqb, ◌-◌, ◌^◌, ℕ, zero, suc, ◌+◌, Option, some, none, List, [], ◌∷◌, if◌then◌else◌,
}
use outlay.Base.Opt.{unwrap_or}
use outlay.Base.Res.{Result, ok, err}
use outlay.Base.Text.{Text}

abbrev pub ephemeral_base : ℕ
ephemeral_base = 8086

abbrev pub ephemeral_tries : ℕ
ephemeral_tries = 50

-- `u16::checked_add`.
unfoldable pub checked_add : ℕ → ℕ → Option ℕ
checked_add a b = if ltb (a + b) (2 ^ 16) then some (a + b) else none

pub data BindError : Type 0 where
  port_range_overflow : BindError
  -- the port that was asked for, and the error
  failed_to_bind : ℕ → Text → BindError
  -- the range that was tried, and the last error
  no_free_port : ℕ → ℕ → Text → BindError

-- The loop over the offsets `offset .. offset + rounds`. Beside the result stands the list of the
-- ports that were tried, in order.
module _ (run : ℕ → Result Text Text) (port start tries : ℕ) where
  unfoldable pub scan : ℕ → ℕ → Option Text → List ℕ × Result BindError (ℕ × Text)
  scan zero offset last_err =
      ([], err (no_free_port start (start + tries - 1) (unwrap_or last_err [])))
  scan (suc rounds) offset last_err = elim (checked_add start offset) [
    | none ↦ ([], err port_range_overflow)
    | some candidate ↦ elim (run candidate) [
      | ok url ↦ (candidate ∷ [], ok (candidate, url))
      | err e ↦
          let rest = scan rounds (suc offset) (some e) in
          if eqb port 0
          then (candidate ∷ rest.0, rest.1)
          else (candidate ∷ [], err (failed_to_bind candidate e))
    ]
  ]

-- The first port, and how many are tried.
unfoldable pub plan : ℕ → ℕ × ℕ
plan port = if eqb port 0 then (ephemeral_base, ephemeral_tries) else (port, 1)

unfoldable pub bind_with_port_scan :
    {Database : Type 0}
    → (Database → ℕ → Result Text Text)
    → Database
    → ℕ
    → List ℕ × Result BindError (ℕ × Text)
unfolding scan plan
bind_with_port_scan run db port =
    let (start, tries) = plan port in scan (run db) port start tries tries 0 none
