-- ===== src/Shim/Escape.antt =====
-- `esc` of crates/outlay-shim/src/nip11.rs: `str::replace`, four times over.
use outlay.Base.{
  ℕ, [], ◌∷◌, ◌++◌, ◌≡◌, refl, ◌∙◌, inl, inr, arith, Bool-cases, if◌then◌else◌, append_assoc, eqb,
}
use outlay.Base.Text.{Text, codes}

-- `s.replace(c, t)` at one character.
unfoldable pub replace : ℕ → Text → Text → Text
replace c t [] = []
replace c t (d ∷ s) = let rest = replace c t s in if eqb d c then t ++ rest else d ∷ rest

unfoldable pub esc : Text → Text
unfolding replace
esc s =
    replace b'"' (codes "&quot;")
      (replace b'>' (codes "&gt;") (replace b'<' (codes "&lt;") (replace b'&' (codes "&amp;") s)))

-- The reference: one pass, one entity for each character that HTML reads.
abbrev pub entity : ℕ → Text
entity c =
    if eqb c b'&'
    then codes "&amp;"
    else if eqb c b'<'
    then codes "&lt;"
    else if eqb c b'>'
    then codes "&gt;"
    else if eqb c b'"'
    then codes "&quot;"
    else c ∷ []

abbrev pub entities : Text → Text
entities [] = []
entities (c ∷ s) = entity c ++ entities s

replace-append : (c : ℕ) (t a b : Text) → replace c t (a ++ b) ≡ replace c t a ++ replace c t b
unfolding replace
replace-append c t [] b = refl
replace-append c t (d ∷ a) b = elim (Bool-cases (eqb d c)) [
  | inl e ↦ ground (arith, replace-append c t a b, append_assoc t (replace c t a) (replace c t b))
  | inr e ↦ ground (arith, replace-append c t a b)
]

esc-append : (a b : Text) → esc (a ++ b) ≡ esc a ++ esc b
unfolding esc
esc-append a b = simp replace-append

esc-entity : (c : ℕ) → esc (c ∷ []) ≡ entity c
unfolding esc replace
esc-entity c = ground arith

-- Escaping in four passes is escaping in one: no entity is escaped again.
pub esc-eq-entities : (s : Text) → esc s ≡ entities s
unfolding esc replace
esc-eq-entities [] = refl
esc-eq-entities (c ∷ s) = esc-append (c ∷ []) s ∙ rw (esc-entity c, esc-eq-entities s)
