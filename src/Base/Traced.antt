-- ===== src/Base/Traced.antt =====
-- What a run does, step by step, beside its result: `?` on both, as `do`.
use mathlib.Core.Path.{◌≡◌, refl, ap}
use mathlib.Core.List.{List, [], ◌∷◌, ◌++◌}
use mathlib.Core.Logic.{◌≢◌}
use outlay.Base.Res.{Result, ok, err}

abbrev pub Traced {ℓ κ μ} : Type ℓ → Type κ → Type μ → Type (ℓ ⊔ κ ⊔ μ)
Traced S E A = List S × Result E A

-- The first error ends the run.
module _ {ℓ κ μ ν} {S : Type ℓ} {E : Type κ} {A : Type μ} {B : Type ν} where
  infixl 5 ◌>>=◌
  abbrev pub ◌>>=◌ : Traced S E A → (A → Traced S E B) → Traced S E B
  (done, err e) >>= then = (done, err e)
  (done, ok a) >>= then = let r = then a in (done ++ r.0, r.1)

-- One step, and its result.
abbrev pub step {ℓ κ μ} : {S : Type ℓ} {E : Type κ} {A : Type μ} → S → Result E A → Traced S E A
step s r = (s ∷ [], r)

abbrev pub pure {ℓ κ μ} : {S : Type ℓ} {E : Type κ} {A : Type μ} → Result E A → Traced S E A
pure r = ([], r)

module _ {ℓ κ μ ν} {S : Type ℓ} {E : Type κ} {A : Type μ} {B : Type ν} where
  pub >>=-of-ok :
      (r : Traced S E A) (then : A → Traced S E B) {a : A}
      → r.1 ≡ ok a
      → (r >>= then) ≡ (r.0 ++ (then a).0, (then a).1)
  >>=-of-ok (done, ok b) then h = ap (λ c. (done ++ (then c).0, (then c).1)) (cc (h))
  >>=-of-ok (done, err e) then h = cc

  pub >>=-of-err :
      (r : Traced S E A) (then : A → Traced S E B) {e : E}
      → r.1 ≡ err e
      → (r >>= then) ≡ (r.0, err e)
  >>=-of-err (done, ok b) then h = cc
  >>=-of-err (done, err x) then h = cc (h)

  -- What succeeds has succeeded in both parts, and has done what they did.
  pub >>=-eq-ok :
      (r : Traced S E A) (then : A → Traced S E B) {b : B}
      → (r >>= then).1 ≡ ok b
      → (a : A) × (r.1 ≡ ok a) × ((then a).1 ≡ ok b) × ((r >>= then).0 ≡ r.0 ++ (then a).0)
  >>=-eq-ok (done, ok a) then h = (a, refl, h, refl)
  >>=-eq-ok (done, err e) then h = cc

  -- An error that no part ends with.
  pub bind-avoids :
      (e : E) (r : Traced S E A) (then : A → Traced S E B)
      → r.1 ≢ err e
      → ((a : A) → r.1 ≡ ok a → (then a).1 ≢ err e)
      → (r >>= then).1 ≢ err e
  bind-avoids e (done, ok a) then h k = k a refl
  bind-avoids e (done, err x) then h k = λ q. h (cc (q))
