-- ===== src/Shim/Conn/Subs.antt =====
-- Laws of the map `subs` (crates/outlay-shim/src/conn.rs): it holds a key once, and no operation on
-- it loses or doubles a task.
use outlay.Base.{
  ℕ, ◌+◌, ◌<◌, Bool, true, false, Option, some, none, [], ◌∷◌, ◌≡◌, refl, inl, inr, arith,
  Bool-cases, All, eqb,
}
use mathlib.Core.Path.{subst}
use outlay.Base.Text.{Text, ◌==◌, ==_iff}
use outlay.Shim.Conn.{Subs, remove, insert}

-- How often a task stands in the map.
abbrev pub one_if : Bool → ℕ
one_if true = 1
one_if false = 0

abbrev pub live : ℕ → Subs → ℕ
live n [] = 0
live n ((k, i) ∷ m) = one_if (eqb i n) + live n m

abbrev pub live_some : ℕ → Option ℕ → ℕ
live_some n none = 0
live_some n (some i) = one_if (eqb i n)

abbrev pub Absent : Text → Subs → Type 0
Absent k m = All (λ e. (e.0 == k) ≡ false) m

abbrev pub Distinct : Subs → Type 0
Distinct [] = Unit
Distinct ((k, n) ∷ m) = Absent k m × Distinct m

-- All tasks are below the counter.
abbrev pub Below : ℕ → Subs → Type 0
Below b m = All (λ e. e.1 < b) m

pub live-remove :
    (n : ℕ) (k : Text) (m : Subs) → live_some n (remove k m).0 + live n (remove k m).1 ≡ live n m
unfolding remove
live-remove n k [] = omega arith
live-remove n k ((j, i) ∷ m) = ground (arith, live-remove n k m)

pub remove-Absent_other : (k j : Text) (m : Subs) → Absent j m → Absent j (remove k m).1
unfolding remove
remove-Absent_other k j [] h = tt
remove-Absent_other k j ((i, n) ∷ m) (p, h) = ground (arith, remove-Absent_other k j m h)

pub remove-Absent : (k : Text) (m : Subs) → Distinct m → Absent k (remove k m).1
unfolding remove
remove-Absent k [] h = tt
remove-Absent k ((j, n) ∷ m) (p, h) = elim (Bool-cases (j == k)) [
  | inl e ↦ rw (e, remove) (subst (λ x. Absent x m) ((==_iff j k).0 e) p)
  | inr o ↦ rw (o, remove) (o, remove-Absent k m h)
]

pub remove-Distinct : (k : Text) (m : Subs) → Distinct m → Distinct (remove k m).1
unfolding remove
remove-Distinct k [] h = tt
remove-Distinct k ((j, n) ∷ m) (p, h) =
    ground (arith, remove-Distinct k m h, remove-Absent_other k j m p)

pub remove-Below : (b : ℕ) (k : Text) (m : Subs) → Below b m → Below b (remove k m).1
unfolding remove
remove-Below b k [] h = tt
remove-Below b k ((j, n) ∷ m) (p, h) = ground (arith, remove-Below b k m h)

pub live-insert :
    (n i : ℕ) (k : Text) (m : Subs)
    → Absent k m
    → live n (insert k i m) ≡ one_if (eqb i n) + live n m
unfolding insert
live-insert n i k [] h = refl
live-insert n i k ((j, a) ∷ m) (p, h) = rw (p, insert) (omega (arith, live-insert n i k m h))

insert-Absent :
    (k j : Text) (i : ℕ) (m : Subs) → (k == j) ≡ false → Absent j m → Absent j (insert k i m)
unfolding insert
insert-Absent k j i [] e h = (e, tt)
insert-Absent k j i ((a, n) ∷ m) e (p, h) = ground (arith, insert-Absent k j i m e h)

==_flip : (j k : Text) → (j == k) ≡ false → (k == j) ≡ false
==_flip j k h = ground (arith, ==_iff j k, ==_iff k j)

pub insert-Distinct :
    (k : Text) (i : ℕ) (m : Subs) → Absent k m → Distinct m → Distinct (insert k i m)
unfolding insert
insert-Distinct k i [] a d = (tt, tt)
insert-Distinct k i ((j, n) ∷ m) (p, a) (q, d) =
    rw (p, insert) (insert-Absent k j i m (==_flip j k p) q, insert-Distinct k i m a d)

pub insert-Below :
    (b : ℕ) (k : Text) (i : ℕ) (m : Subs) → i < b → Below b m → Below b (insert k i m)
unfolding insert
insert-Below b k i [] h g = (h, tt)
insert-Below b k i ((j, n) ∷ m) h (p, g) = ground (arith, insert-Below b k i m h g)
