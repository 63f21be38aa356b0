-- ===== src/Shim/Config/Refusal.antt =====
-- When `read_shim_config` of crates/outlay-shim/src/config.rs refuses an environment.
use outlay.Base.{
  Bool, true, false, ◌&&◌, ◌||◌, Option, some, none, List, [], ◌∷◌, ◌≡◌, ◌↔◌, ◌⊎◌, refl, arith,
}
use outlay.Base.Res.{Result, ok, err, ◌>>=◌}
use outlay.Base.Text.{Text, codes, ◌==◌}
use outlay.Env.{Env, opt_string}
use outlay.Base.Text.{==_iff}
use outlay.Shim.Config.{
  bool_of, lowercase, ConfigError, opt_bool_env, encryption_mode_of, gift_wrap_mode_of, shim_config,
  read_shim_config,
}

abbrev pub Among : Text → List Text → Type 0
Among s [] = ⊥
Among s (w ∷ ws) = (s ≡ w) ⊎ Among s ws

-- A value that is unset, or one of some words.
abbrev pub UnsetOrAmong : List Text → Option Text → Type 0
UnsetOrAmong ws none = Unit
UnsetOrAmong ws (some s) = Among s ws

among : Text → List Text → Bool
among s [] = false
among s (w ∷ ws) = s == w || among s ws

among_iff : (s : Text) (ws : List Text) → (among s ws ≡ true) ↔ Among s ws
unfolding among
among_iff s [] = (λ h. cc, λ h. absurd h)
among_iff s (w ∷ ws) =
    let (to, from) = ==_iff s w in
    let (to', from') = among_iff s ws in ground (arith, to, from, to', from')

abbrev pub is_ok {ℓ} : {A : Type ℓ} → Result ConfigError A → Bool
is_ok (ok a) = true
is_ok (err e) = false

is_ok_of_three {ℓ} :
    {A B C D : Type ℓ} (e : Result ConfigError A) (g : Result ConfigError B)
    (r : Result ConfigError C) (k : A → B → C → D)
    → is_ok (do a ← e; b ← g; c ← r; ok (k a b c)) ≡ (is_ok e && is_ok g && is_ok r)
is_ok_of_three (err x) g r k = refl
is_ok_of_three (ok a) (err x) r k = refl
is_ok_of_three (ok a) (ok b) (err x) k = refl
is_ok_of_three (ok a) (ok b) (ok c) k = refl

read_shim_config-is_ok :
    (env : Env)
    → is_ok (read_shim_config env) ≡ (
        is_ok (encryption_mode_of (opt_string env (codes "OUTLAY_SHIM_ENCRYPTION_MODE")))
        && is_ok (gift_wrap_mode_of (opt_string env (codes "OUTLAY_SHIM_GIFT_WRAP_MODE")))
        && is_ok (bool_of (lowercase (opt_string env (codes "OUTLAY_SHIM_RELAY")))))
unfolding read_shim_config opt_bool_env
read_shim_config-is_ok env =
    is_ok_of_three (encryption_mode_of (opt_string env (codes "OUTLAY_SHIM_ENCRYPTION_MODE")))
      (gift_wrap_mode_of (opt_string env (codes "OUTLAY_SHIM_GIFT_WRAP_MODE")))
      (bool_of (lowercase (opt_string env (codes "OUTLAY_SHIM_RELAY")))) (shim_config env)

all_iff :
    {a b c : Bool} {P Q R : Type 0}
    → ((a ≡ true) ↔ P)
    → ((b ≡ true) ↔ Q)
    → ((c ≡ true) ↔ R)
    → ((a && b && c) ≡ true) ↔ (P × Q × R)
all_iff (f, g) (h, i) (j, k) = ground (arith, f, g, h, i, j, k)

abbrev pub encryption_words : List Text
encryption_words = codes "optional" ∷ codes "disabled" ∷ codes "required" ∷ []

abbrev pub gift_wrap_words : List Text
gift_wrap_words = codes "ephemeral" ∷ codes "persistent" ∷ codes "optional" ∷ []

abbrev pub boolean_words : List Text
boolean_words = codes "true" ∷ codes "1" ∷ codes "false" ∷ codes "0" ∷ []

encryption_mode_of_lem :
    (o : Option Text) → (is_ok (encryption_mode_of o) ≡ true) ↔ UnsetOrAmong encryption_words o
unfolding encryption_mode_of among
encryption_mode_of_lem none = (λ _. tt, λ _. refl)
encryption_mode_of_lem (some s) =
    let (to, from) = among_iff s encryption_words in ground (arith, to, from)

gift_wrap_mode_of_lem :
    (o : Option Text) → (is_ok (gift_wrap_mode_of o) ≡ true) ↔ UnsetOrAmong gift_wrap_words o
unfolding gift_wrap_mode_of among
gift_wrap_mode_of_lem none = (λ _. tt, λ _. refl)
gift_wrap_mode_of_lem (some s) =
    let (to, from) = among_iff s gift_wrap_words in ground (arith, to, from)

bool_of_lem : (o : Option Text) → (is_ok (bool_of o) ≡ true) ↔ UnsetOrAmong boolean_words o
unfolding bool_of among
bool_of_lem none = (λ _. tt, λ _. refl)
bool_of_lem (some s) = let (to, from) = among_iff s boolean_words in ground (arith, to, from)

-- An environment is refused exactly for a word, in one of three variables, that is not listed.
pub read_shim_config-is_ok_iff :
    (env : Env)
    → (is_ok (read_shim_config env) ≡ true) ↔ (
        UnsetOrAmong encryption_words (opt_string env (codes "OUTLAY_SHIM_ENCRYPTION_MODE"))
        × UnsetOrAmong gift_wrap_words (opt_string env (codes "OUTLAY_SHIM_GIFT_WRAP_MODE"))
        × UnsetOrAmong boolean_words (lowercase (opt_string env (codes "OUTLAY_SHIM_RELAY"))))
read_shim_config-is_ok_iff env = rw (read_shim_config-is_ok env) (
    all_iff (encryption_mode_of_lem (opt_string env (codes "OUTLAY_SHIM_ENCRYPTION_MODE")))
      (gift_wrap_mode_of_lem (opt_string env (codes "OUTLAY_SHIM_GIFT_WRAP_MODE")))
      (bool_of_lem (lowercase (opt_string env (codes "OUTLAY_SHIM_RELAY")))))
