-- ===== src/Shim/Page/Markup.antt =====
-- The HTML page of crates/outlay-shim/src/nip11.rs: what a document can do to its markup.
use outlay.Base.{ℕ, Bool, ◌||◌, Option, some, none, [], ◌∷◌, ◌++◌, ◌≡◌, refl, arith, keep, eqb}
use outlay.Base.Text.{Text}
use outlay.Json.{Json}
use outlay.Shim.Escape.{esc, entity, entities, esc-eq-entities}
use outlay.Shim.Page.{page, jumble_button, render_html, name_of, pretty_of}

-- The characters that open or close a tag or end an attribute's value.
abbrev pub is_markup : ℕ → Bool
is_markup c = eqb c b'<' || eqb c b'>' || eqb c b'"'

abbrev pub markup : Text → Text
markup s = keep is_markup s

markup-append : (a b : Text) → markup (a ++ b) ≡ markup a ++ markup b
markup-append [] b = refl
markup-append (c ∷ a) b = ground (arith, markup-append a b)

markup-entity : (c : ℕ) → markup (entity c) ≡ []
markup-entity c = ground arith

markup-entities : (s : Text) → markup (entities s) ≡ []
markup-entities [] = refl
markup-entities (c ∷ s) =
    rw (markup-append (entity c) (entities s), markup-entity c, markup-entities s)

markup-esc : (s : Text) → markup (esc s) ≡ []
markup-esc s = rw (esc-eq-entities s, markup-entities s)

-- A link with nothing in it.
abbrev pub blank : Option Text → Option Text
blank none = none
blank (some j) = some []

markup-page :
    (name : Text) (jumble : Option Text) (pretty : Text)
    → markup (page name jumble pretty) ≡ markup (page [] (blank jumble) [])
unfolding page jumble_button
markup-page name none pretty = simp (markup-append, markup-esc)
markup-page name (some j) pretty = simp (markup-append, markup-esc)

module _ (J : Json) where
  open J use {Value}

  -- No document and no link adds, removes or moves a character of the page's markup: it is that of
  -- the empty page, with the button where there is a link.
  pub markup-render_html :
      (doc : Value) (jumble : Option Text)
      → markup (render_html J doc jumble) ≡ markup (page [] (blank jumble) [])
  unfolding render_html
  markup-render_html doc jumble = markup-page (name_of J doc) jumble (pretty_of J doc)
