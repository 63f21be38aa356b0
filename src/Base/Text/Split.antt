-- ===== src/Base/Text/Split.antt =====
-- `str::split` at one character.
use Prim.Native.Nat.{ℕ}
use mathlib.Core.Logic.{◌≢◌, inl, inr}
use mathlib.Core.List.{List, [], ◌∷◌}
use native.Mathlib.Omega.{arith}
use outlay.Base.Tests.{eqb, eqb_iff, if◌then◌else◌, Bool-cases}
use mathlib.Core.Option.{some}
use mathlib.Core.Path.{◌≡◌, refl, ap}
use mathlib.Core.List.{◌++◌}
use outlay.Base.Lists.{All, first}
use outlay.Base.Text.Defs.{Text}

abbrev pub push : ℕ → List Text → List Text
push c [] = (c ∷ []) ∷ []
push c (s ∷ rest) = (c ∷ s) ∷ rest

unfoldable pub split : ℕ → Text → List Text
split sep [] = [] ∷ []
split sep (c ∷ s) = let rest = split sep s in if eqb c sep then [] ∷ rest else push c rest

-- `split(sep).next()`: the text before the first separator, or all of it.
unfoldable pub before : ℕ → Text → Text
before sep [] = []
before sep (c ∷ s) = let rest = before sep s in if eqb c sep then [] else c ∷ rest

abbrev pub Lacks : ℕ → Text → Type 0
Lacks sep s = All (λ c. c ≢ sep) s

push-Lacks : (sep c : ℕ) (l : List Text) → c ≢ sep → All (Lacks sep) l → All (Lacks sep) (push c l)
push-Lacks sep c [] p h = ((p, tt), tt)
push-Lacks sep c (s ∷ l) p (q, h) = ((p, q), h)

-- No piece holds the separator.
pub split-Lacks : (sep : ℕ) (s : Text) → All (Lacks sep) (split sep s)
unfolding split
split-Lacks sep [] = (tt, tt)
split-Lacks sep (c ∷ s) = elim (Bool-cases (eqb c sep)) [
  | inl e ↦ rw e (tt, split-Lacks sep s)
  | inr n ↦ rw n (push-Lacks sep c (split sep s) (λ e. absurd (ground arith)) (split-Lacks sep s))
]

-- The rest of a text behind its first piece: nothing, or the separator and more.
abbrev pub IsTail : ℕ → Text → Type 0
IsTail sep [] = Unit
IsTail sep (c ∷ s) = c ≡ sep

first-push : (c : ℕ) (l : List Text) {a : Text} → first l ≡ some a → first (push c l) ≡ some (c ∷ a)
first-push c [] h = cc
first-push c (s ∷ l) h = ground arith

pub first-split : (sep : ℕ) (s : Text) → first (split sep s) ≡ some (before sep s)
unfolding split before
first-split sep [] = refl
first-split sep (c ∷ s) =
    ground (arith, first-split sep s, first-push c (split sep s) {a = before sep s})

pub before-append :
    (sep : ℕ) (a tail : Text) → Lacks sep a → IsTail sep tail → before sep (a ++ tail) ≡ a
unfolding before
before-append sep [] [] h k = refl
before-append sep [] (c ∷ tail) h k = ground arith
before-append sep (c ∷ a) tail (p, h) k = ground (arith, before-append sep a tail h k)

pub before-rest :
    (sep : ℕ) (s : Text)
    → (tail : Text) × (s ≡ before sep s ++ tail) × Lacks sep (before sep s) × IsTail sep tail
unfolding before
before-rest sep [] = ([], refl, tt, tt)
before-rest sep (c ∷ s) =
    let (tail, e, h, k) = before-rest sep s in
    elim (Bool-cases (eqb c sep)) [
      | inl same ↦ (c ∷ s, rw same, rw same tt, (eqb_iff c sep).0 same)
      | inr other ↦ (
        tail,
        rw other (ap (◌∷◌ c) e),
        rw other (λ q. cc (rw q at other, (eqb_iff sep sep).1 refl), h),
        k,
      )
    ]
