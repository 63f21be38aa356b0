-- ===== src/Env.antt =====
-- What the two configuration readers, crates/outlay/src/config.rs and
-- crates/outlay-shim/src/config.rs, share: each has its own copy of `opt_string` and of the reading
-- of a comma-separated list of URLs. An environment is the map from names to values.
pub mod Load
use outlay.Base.{
  inl, inr, ℕ, ◌<◌, false, not, Option, some, none, List, [], ◌∷◌, ◌≡◌, ◌≢◌, arith, map, Bool-cases,
  Option-cases, if◌then◌else◌, All, keep,
}
use outlay.Base.Opt.{unwrap_or}
use outlay.Base.Text.{Text, trim, trim_idem, is_empty, split, parse_uint, parse_uint-lt}

abbrev pub Env : Type 0
Env = Text → Option Text

-- The mode enum of `contextvm_sdk` that both crates read.
pub data GiftWrapMode : Type 0 where
  persistent ephemeral optional : GiftWrapMode

-- `.filter(|s| !s.is_empty())` after the trim.
unfoldable pub trimmed : Option Text → Option Text
trimmed none = none
trimmed (some raw) = if is_empty (trim raw) then none else some (trim raw)

unfoldable pub opt_string : Env → Text → Option Text
unfolding trimmed
opt_string env name = trimmed (env name)

unfoldable pub csv : Text → List Text
csv raw = keep (λ s. not (is_empty s)) (map trim (split b',' raw))

-- `if urls.is_empty() { default } else { urls }`
unfoldable pub or_default : List Text → List Text → List Text
or_default default [] = default
or_default default (u ∷ us) = u ∷ us

-- `.and_then(|s| s.parse().ok()).unwrap_or(default)` at an unsigned type.
unfoldable pub number : ℕ → ℕ → Option Text → ℕ
number bound default none = default
number bound default (some s) = unwrap_or (parse_uint bound s) default

-- Neither empty nor with white space at an end.
abbrev pub IsClean : Text → Type 0
IsClean s = (is_empty s ≡ false) × (trim s ≡ s)

from_trimmed : (o : Option Text) (s : Text) → trimmed o ≡ some s → IsClean s
unfolding trimmed
from_trimmed none s h = cc
from_trimmed (some raw) s h = ground (arith, trim_idem raw)

pub opt_string-IsClean : (env : Env) (name s : Text) → opt_string env name ≡ some s → IsClean s
unfolding opt_string
opt_string-IsClean env name s h = from_trimmed (env name) s h

keep-IsClean : (us : List Text) → All IsClean (keep (λ s. not (is_empty s)) (map trim us))
keep-IsClean [] = tt
keep-IsClean (u ∷ us) = elim (Bool-cases (is_empty (trim u))) [
  | inl e ↦ rw e (keep-IsClean us)
  | inr n ↦ rw n ((n, trim_idem u), keep-IsClean us)
]

pub csv-IsClean : (raw : Text) → All IsClean (csv raw)
unfolding csv
csv-IsClean raw = keep-IsClean (split b',' raw)

pub unwrap_or-IsClean :
    (env : Env) (name default : Text)
    → IsClean default
    → IsClean (unwrap_or (opt_string env name) default)
unwrap_or-IsClean env name default h = elim (Option-cases (opt_string env name)) [
  | inl e ↦ rw e h
  | inr (s, e) ↦ rw e (opt_string-IsClean env name s e)
]

pub or_default-IsClean :
    (ds us : List Text)
    → All IsClean ds × (ds ≢ [])
    → All IsClean us
    → All IsClean (or_default ds us) × (or_default ds us ≢ [])
unfolding or_default
or_default-IsClean ds [] h k = h
or_default-IsClean ds (u ∷ us) h k = (k, λ e. cc)

pub number-lt :
    (bound default : ℕ) (o : Option Text) → default < bound → number bound default o < bound
unfolding number
number-lt bound default none h = h
number-lt bound default (some s) h = elim (Option-cases (parse_uint bound s)) [
  | inl e ↦ rw e h
  | inr (v, e) ↦ rw e (parse_uint-lt bound s v (omega (arith, h)) e)
]
