-- ===== src/Proxy/Overlay/Identity.antt =====
-- The identity that outlay moves under `upstream` from the document of its upstream
-- (crates/outlay/src/proxy.rs).
use outlay.Base.{
  true, false, Option, some, none, ◌≡◌, ◌≢◌, ◌⊎◌, refl, ◌∙◌, inl, inr, arith, Option-cases,
}
use outlay.Base.Text.{Text, codes, ◌==◌, ne_of_test}
use outlay.Json.{Json}
use outlay.Json.Laws.{HasMaps, find-insert_self, find-insert_ne, find-remove_ne}
use outlay.Proxy.Info.{move_to, upstream_identity}

module _ (J : Json) (version : Text) where
  open J use {Value, Map, empty, insert, find, remove, is_empty}

  module _ (L : HasMaps J) where
    find-move_to_self :
        (k : Text) (o : Option Value) (m : Map)
        → find k m ≡ none
        → find k (move_to J version k o m) ≡ o
    unfolding move_to
    find-move_to_self k none m h = h
    find-move_to_self k (some v) m h = find-insert_self J L k v m

    find-move_to_ne :
        (k j : Text) (o : Option Value) (m : Map)
        → k ≢ j
        → find j (move_to J version k o m) ≡ find j m
    unfolding move_to
    find-move_to_ne k j none m h = refl
    find-move_to_ne k j (some v) m h = find-insert_ne J L k j v m h

    pub software-upstream_identity :
        (m : Map)
        → find (codes "software") (upstream_identity J version m) ≡ find (codes "software") m
    unfolding ◌==◌ upstream_identity
    software-upstream_identity m =
        find-move_to_ne (codes "version") _ _ _ (ne_of_test refl)
        ∙ find-move_to_self (codes "software") _ empty (L.find-empty _)

    pub version-upstream_identity :
        (m : Map)
        → find (codes "version") (upstream_identity J version m) ≡ find (codes "version") m
    unfolding ◌==◌ upstream_identity
    version-upstream_identity m =
        find-move_to_self (codes "version") _ _
          (find-move_to_ne (codes "software") _ _ empty (ne_of_test refl) ∙ L.find-empty _)
        ∙ find-remove_ne J L _ _ m (ne_of_test refl)

    pub is_empty-upstream_identity :
        (m : Map)
        → find (codes "software") m ≡ none
        → find (codes "version") m ≡ none
        → is_empty (upstream_identity J version m) ≡ true
    unfolding ◌==◌ upstream_identity move_to
    is_empty-upstream_identity m p q =
        rw (p, find-remove_ne J L (codes "software") (codes "version") m (ne_of_test refl), q)
          L.is_empty-empty

    is_empty-move_to :
        (k : Text) (v : Value) (m : Map) → is_empty (move_to J version k (some v) m) ≡ false
    unfolding move_to
    is_empty-move_to k v m = L.is_empty-insert k v m

    identity_of_version :
        (m : Map) (v : Value)
        → find (codes "version") m ≡ some v
        → is_empty (upstream_identity J version m) ≡ false
    unfolding ◌==◌ upstream_identity
    identity_of_version m v h =
        rw (find-remove_ne J L (codes "software") (codes "version") m (ne_of_test refl), h)
          (is_empty-move_to (codes "version") v _)

    identity_of_software :
        (m : Map) (v : Value)
        → find (codes "software") m ≡ some v
        → find (codes "version") m ≡ none
        → is_empty (upstream_identity J version m) ≡ false
    unfolding ◌==◌ upstream_identity move_to
    identity_of_software m v h n =
        rw (find-remove_ne J L (codes "software") (codes "version") m (ne_of_test refl), n, h)
          (L.is_empty-insert (codes "software") v empty)

    pub identity_of_either :
        (m : Map)
        → (find (codes "software") m ≢ none) ⊎ (find (codes "version") m ≢ none)
        → is_empty (upstream_identity J version m) ≡ false
    identity_of_either m h = elim (Option-cases (find (codes "version") m)) [
      | inr (v, e) ↦ identity_of_version m v e
      | inl n ↦ elim (Option-cases (find (codes "software") m)) [
        | inr (v, e) ↦ identity_of_software m v e n
        | inl n' ↦ absurd (ground arith)
      ]
    ]
