-- ===== src/Proxy/Overlay.antt =====
-- What outlay's overlay keeps and changes of an upstream NIP-11 document
-- (crates/outlay/src/proxy.rs).
use outlay.Base.{
  true, false, Option, some, none, ◌≡◌, ◌≢◌, ◌⊎◌, refl, sym, ◌∙◌, inl, inr, arith, Bool-cases,
  Option-cases,
}
use outlay.Base.Text.{Text, codes, ◌==◌, ne_of_test}
use outlay.Json.{Json}
use outlay.Json.Laws.{HasMaps, find-insert_self, find-insert_apart, find-insert_ne, find-remove_ne}
use outlay.Proxy.Info.{
  stamp, upstream_identity, without_identity, attach, overlay_map, overlay_proxy_info,
  synthesized_map,
}
use outlay.Proxy.Overlay.Identity.{
  software-upstream_identity, version-upstream_identity, is_empty-upstream_identity,
  identity_of_either,
}
mod Identity

module _ (J : Json) (version : Text) where
  open J use {
    Value, Map, string, number, boolean, array, object, as_object, empty, insert, find, remove,
    is_empty,
  }

  -- outlay's own identity, which every document that it serves carries.
  abbrev pub IsStamped : Map → Type 0
  IsStamped m =
      (find (codes "software") m ≡ some (string (codes "outlay")))
      × (find (codes "version") m ≡ some (string version))
      × (find (codes "proxy") m ≡ some (boolean true))

  pub record IsOverlay (m out : Map) : Type 0 where
    pub stamped : IsStamped out
    -- every other field passes through verbatim
    pub kept :
        (j : Text)
        → j ≢ codes "software"
        → j ≢ codes "version"
        → j ≢ codes "proxy"
        → j ≢ codes "upstream"
        → find j out ≡ find j m
    -- an upstream that has an identity finds it under `upstream`
    pub moved :
        (find (codes "software") m ≢ none) ⊎ (find (codes "version") m ≢ none)
        → (up : Map) × (find (codes "upstream") out ≡ some (object up))
          × (find (codes "software") up ≡ find (codes "software") m)
          × (find (codes "version") up ≡ find (codes "version") m)
    pub unnamed :
        find (codes "software") m ≡ none
        → find (codes "version") m ≡ none
        → find (codes "upstream") out ≡ find (codes "upstream") m

  module _ (L : HasMaps J) where
    stamp-IsStamped : (m : Map) → IsStamped (stamp J version m)
    unfolding ◌==◌ stamp
    stamp-IsStamped m = (
      find-insert_apart J L _ _ _ _ refl
          ∙ find-insert_apart J L _ _ _ _ refl
          ∙ find-insert_self J L _ _ m,
      find-insert_apart J L _ _ _ _ refl ∙ find-insert_self J L _ _ _,
      find-insert_self J L _ _ _,
    )

    find-stamp :
        (j : Text) (m : Map)
        → j ≢ codes "software"
        → j ≢ codes "version"
        → j ≢ codes "proxy"
        → find j (stamp J version m) ≡ find j m
    unfolding stamp
    find-stamp j m p q r =
        find-insert_ne J L _ j _ _ (λ e. r (sym e))
        ∙ find-insert_ne J L _ j _ _ (λ e. q (sym e))
        ∙ find-insert_ne J L _ j _ m (λ e. p (sym e))

    find-without_identity :
        (j : Text) (m : Map)
        → j ≢ codes "software"
        → j ≢ codes "version"
        → find j (without_identity J version m) ≡ find j m
    unfolding without_identity
    find-without_identity j m p q =
        find-remove_ne J L _ j _ (λ e. q (sym e)) ∙ find-remove_ne J L _ j m (λ e. p (sym e))

    find-attach :
        (j : Text) (up m : Map) → j ≢ codes "upstream" → find j (attach J version up m) ≡ find j m
    unfolding attach
    find-attach j up m p = elim (Bool-cases (is_empty up)) [
      | inl e ↦ rw e
      | inr n ↦ rw n (find-insert_ne J L _ j _ m (λ e. p (sym e)))
    ]

    find-attach_self :
        (up m : Map)
        → is_empty up ≡ false
        → find (codes "upstream") (attach J version up m) ≡ some (object up)
    unfolding attach
    find-attach_self up m h = rw h (find-insert_self J L _ _ m)

    overlay_map-IsOverlay : (m : Map) → IsOverlay m (overlay_map J version m)
    unfolding ◌==◌ overlay_map
    overlay_map-IsOverlay m = record {
      stamped = stamp-IsStamped _;
      kept =
          λ j p q r s. find-stamp j _ p q r ∙ find-attach j _ _ s ∙ find-without_identity j m p q;
      moved = λ h. (
        upstream_identity J version m,
        find-stamp _ _ (ne_of_test refl) (ne_of_test refl) (ne_of_test refl)
            ∙ find-attach_self _ _ (identity_of_either J version L m h),
        software-upstream_identity J version L m,
        version-upstream_identity J version L m,
      );
      unnamed = λ p q.
          find-stamp _ _ (ne_of_test refl) (ne_of_test refl) (ne_of_test refl)
          ∙ rw (is_empty-upstream_identity J version L m p q, attach)
              (find-without_identity _ m (ne_of_test refl) (ne_of_test refl));
    }

    -- The overlay of a JSON object is an object that carries outlay's identity and keeps the
    -- upstream's own under `upstream`; every field but these four passes through verbatim.
    pub overlay_proxy_info-IsOverlay :
        (doc : Value) (m : Map)
        → as_object doc ≡ some m
        → (out : Map) × (overlay_proxy_info J version doc ≡ some (object out)) × IsOverlay m out
    unfolding overlay_proxy_info
    overlay_proxy_info-IsOverlay doc m h = (overlay_map J version m, rw h, overlay_map-IsOverlay m)

    pub synthesized-IsStamped : IsStamped (synthesized_map J version)
    unfolding ◌==◌ synthesized_map
    synthesized-IsStamped = (
      find-insert_apart J L _ _ _ _ refl
          ∙ find-insert_apart J L _ _ _ _ refl
          ∙ find-insert_apart J L _ _ _ _ refl
          ∙ find-insert_self J L _ _ _,
      find-insert_apart J L _ _ _ _ refl
          ∙ find-insert_apart J L _ _ _ _ refl
          ∙ find-insert_self J L _ _ _,
      find-insert_apart J L _ _ _ _ refl ∙ find-insert_self J L _ _ _,
    )
