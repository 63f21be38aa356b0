-- ===== src/Shim/Live/Names.antt =====
-- Laws of the map `subs` (crates/outlay-shim/src/conn.rs) on the ids that its tasks stand under.
use outlay.Base.{
  ℕ, ◌≤◌, some, none, [], ◌∷◌, ◌≡◌, refl, ap, inl, inr, arith, All, Bool-cases, eqb, eqb_iff,
}
use mathlib.Core.Path.{subst}
use outlay.Base.Text.{Text, ◌==◌, ==_iff}
use outlay.Shim.Conn.{Subs, remove, insert}
use outlay.Shim.Conn.Subs.{live, Absent, Distinct, Below}

-- Only `sub_id` has the task `n`.
abbrev pub Names : ℕ → Text → Subs → Type 0
Names n sub_id m = All (λ e. e.1 ≡ n → e.0 ≡ sub_id) m

pub Names-Below : (n : ℕ) (sub_id : Text) (m : Subs) → Below n m → Names n sub_id m
Names-Below n sub_id [] h = tt
Names-Below n sub_id ((k, i) ∷ m) (p, h) =
    (λ e. absurd (omega (arith, e, p)), Names-Below n sub_id m h)

pub Names-remove :
    (n : ℕ) (sub_id k : Text) (m : Subs) → Names n sub_id m → Names n sub_id (remove k m).1
unfolding remove
Names-remove n sub_id k [] h = tt
Names-remove n sub_id k ((j, i) ∷ m) (p, h) = elim (Bool-cases (j == k)) [
  | inl e ↦ rw (e, remove) h
  | inr e ↦ rw (e, remove) (p, Names-remove n sub_id k m h)
]

pub Names-insert :
    (n i : ℕ) (sub_id k : Text) (m : Subs)
    → (i ≡ n → k ≡ sub_id)
    → Names n sub_id m
    → Names n sub_id (insert k i m)
unfolding insert
Names-insert n i sub_id k [] q h = (q, tt)
Names-insert n i sub_id k ((j, a) ∷ m) q (p, h) = elim (Bool-cases (j == k)) [
  | inl e ↦ rw (e, insert) (q, h)
  | inr e ↦ rw (e, insert) (p, Names-insert n i sub_id k m q h)
]

pub live_above : (n : ℕ) (m : Subs) → Below n m → live n m ≡ 0
live_above n [] h = refl
live_above n ((k, i) ∷ m) (p, h) = ground (arith, live_above n m h)

remove-eq-none : (k : Text) (m : Subs) → Absent k m → (remove k m).0 ≡ none
unfolding remove
remove-eq-none k [] h = refl
remove-eq-none k ((j, i) ∷ m) (p, h) = rw (p, remove) (remove-eq-none k m h)

-- A task that stands in the map stands there under its id.
pub remove_live :
    (n : ℕ) (sub_id : Text) (m : Subs)
    → Distinct m
    → Names n sub_id m
    → 1 ≤ live n m
    → (remove sub_id m).0 ≡ some n
unfolding remove
remove_live n sub_id [] d p h = absurd (omega (arith, h))
remove_live n sub_id ((j, i) ∷ m) (a, d) (q, p) h = elim (Bool-cases (eqb i n)) [
  | inl e ↦
      let same : i ≡ n = (eqb_iff i n).0 e in
      rw ((==_iff j sub_id).1 (q same), remove) (ap some same)
  | inr e ↦
      let there = remove_live n sub_id m d p (ground (arith, h, e)) in
      elim (Bool-cases (j == sub_id)) [
        | inl f ↦
            cc (remove-eq-none sub_id m (subst (λ x. Absent x m) ((==_iff j sub_id).0 f) a), there)
        | inr f ↦ rw (f, remove) there
      ]
]
