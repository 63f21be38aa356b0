-- ===== src/Base/Text/Digits.antt =====
-- `str::parse` into an unsigned integer, and the decimal digits of a number.
use Prim.Native.Nat.{ℕ, ◌+◌, ◌-◌, ◌*◌, ◌<◌}
use mathlib.Core.Path.{◌≡◌}
use mathlib.Core.List.{[], ◌∷◌}
use mathlib.Core.Option.{Option, none, some}
use native.Mathlib.Omega.{arith}
use outlay.Base.Tests.{eqb, ltb, if◌then◌else◌}
use outlay.Base.Text.Defs.{Text, is_digit}

-- The checked loop: `none` on a character that is no digit, or when the value leaves the type,
-- whose values are those below `bound`.
parse_digits : ℕ → ℕ → Text → Option ℕ
parse_digits bound acc [] = some acc
parse_digits bound acc (c ∷ s) =
    let value = acc * 10 + (c - b'0') in
    let rest = parse_digits bound value s in
    if is_digit c then if ltb value bound then rest else none else none

-- A leading `+` is allowed before a digit; the empty text is refused.
unfoldable pub parse_uint : ℕ → Text → Option ℕ
unfolding parse_digits
parse_uint bound [] = none
parse_uint bound (c ∷ []) = parse_digits bound 0 (c ∷ [])
parse_uint bound (c ∷ d ∷ s) =
    if eqb c b'+' then parse_digits bound 0 (d ∷ s) else parse_digits bound 0 (c ∷ d ∷ s)

parse_digits-lt :
    (bound acc : ℕ) (s : Text) (v : ℕ) → acc < bound → parse_digits bound acc s ≡ some v → v < bound
unfolding parse_digits
parse_digits-lt bound acc [] v h e = ground arith
parse_digits-lt bound acc (c ∷ s) v h e =
    ground (arith, parse_digits-lt bound (acc * 10 + (c - b'0')) s v)

pub parse_uint-lt :
    (bound : ℕ) (s : Text) (v : ℕ) → 0 < bound → parse_uint bound s ≡ some v → v < bound
unfolding parse_uint
parse_uint-lt bound [] v h e = cc
parse_uint-lt bound (c ∷ []) v h e = parse_digits-lt bound 0 (c ∷ []) v h e
parse_uint-lt bound (c ∷ d ∷ s) v h e =
    ground (arith, parse_digits-lt bound 0 (d ∷ s) v, parse_digits-lt bound 0 (c ∷ d ∷ s) v)
