-- ===== src/Base/Opt.antt =====
-- `?` on `Option`, as `do`.
use mathlib.Core.Path.{◌≡◌, refl}
use mathlib.Core.Option.{Option, none, some}

module _ {ℓ κ} {A : Type ℓ} {B : Type κ} where
  infixl 5 ◌>>=◌
  abbrev pub ◌>>=◌ : Option A → (A → Option B) → Option B
  some a >>= then = then a
  none >>= then = none

  pub >>=-eq-some :
      (o : Option A) (then : A → Option B) {b : B}
      → (o >>= then) ≡ some b
      → (a : A) × (o ≡ some a) × (then a ≡ some b)
  >>=-eq-some (some a) then h = (a, refl, h)
  >>=-eq-some none then h = cc

-- `Option::or_else` and `Option::unwrap_or`.
abbrev pub or_else {ℓ} : {A : Type ℓ} → Option A → Option A → Option A
or_else none d = d
or_else (some a) d = some a

abbrev pub unwrap_or {ℓ} : {A : Type ℓ} → Option A → A → A
unwrap_or none d = d
unwrap_or (some a) d = a
