-- ===== src/Shim/Urls.antt =====
-- The choice of the relay URLs to dial: `resolve_relay_urls`, `substitute_self` and `norm_url` of
-- crates/outlay-shim/src/transport.rs, and `public_url` of crates/outlay-shim/src/config.rs.
-- `RelayUrl` belongs to `nostr_sdk`: the canonical form of a URL, if it is one, is a parameter.
use outlay.Base.{
  Bool, true, false, not, Option, some, none, List, [], ◌∷◌, ◌≡◌, ◌↔◌, ◌⊎◌, refl, ap, ◌∙◌, inl, inr,
  arith, map, Bool-cases, Option-cases, if◌then◌else◌, first, any,
}
use outlay.Base.Opt.{or_else}
use outlay.Base.Text.{Text, ◌==◌, ==_iff}

abbrev pub is_nil {ℓ} : {A : Type ℓ} → List A → Bool
is_nil [] = true
is_nil (a ∷ as_rest) = false

-- `ShimConfig::public_url`
unfoldable pub public_url : List Text → List Text → Option Text
public_url public_urls relay_urls = or_else (first public_urls) (first relay_urls)

-- `filter_map`, one item.
abbrev pub cons_some : Option Text → List Text → List Text
cons_some none l = l
cons_some (some n) l = n ∷ l

-- `Some(n) if public.contains(&n)`
abbrev pub holds : List Text → Option Text → Bool
holds public none = false
holds public (some n) = any (λ p. p == n) public

module _ (norm_url : Text → Option Text) where
  -- The set of the canonical forms of the public URLs.
  unfoldable pub public_set : List Text → List Text
  public_set [] = []
  public_set (u ∷ us) = cons_some (norm_url u) (public_set us)

  -- `public.contains(&n)` on the candidate's canonical form
  unfoldable pub is_self : List Text → Text → Bool
  is_self public u = holds public (norm_url u)

  unfoldable pub substitute_self : List Text → List Text → Option Text → List Text
  unfolding public_set is_self
  substitute_self candidates public_urls none = candidates
  substitute_self candidates public_urls (some loopback) =
      map (λ u. if is_self (public_set public_urls) u then loopback else u) candidates

  unfoldable pub resolve_relay_urls : List Text → List Text → List Text → Option Text → List Text
  unfolding substitute_self
  resolve_relay_urls relay_urls public_urls relay_hints loopback_url =
      substitute_self (if not (is_nil relay_hints) then relay_hints else relay_urls)
        (if not (is_nil public_urls) then public_urls else relay_urls) loopback_url

  -- Two URLs that are one by `RelayUrl`.
  abbrev pub Same : Text → Text → Type 0
  Same u v = (n : Text) × (norm_url u ≡ some n) × (norm_url v ≡ some n)

  abbrev pub SameAsOne : Text → List Text → Type 0
  SameAsOne u [] = ⊥
  SameAsOne u (p ∷ ps) = Same u p ⊎ SameAsOne u ps

  module _ (u n : Text) (h : norm_url u ≡ some n) where
    any-cons_some :
        (p : Text) (ps : List Text) (o : Option Text)
        → norm_url p ≡ o
        → ((any (λ q. q == n) (public_set ps) ≡ true) ↔ SameAsOne u ps)
        → (any (λ q. q == n) (cons_some o (public_set ps)) ≡ true) ↔ SameAsOne u (p ∷ ps)
    any-cons_some p ps none e (to, from) =
        (λ t. inr (to t), λ s. elim s [ inl (m, a, b) ↦ cc | inr r ↦ from r ])
    any-cons_some p ps (some m) e (to, from) = (
      λ t. elim (Bool-cases (m == n)) [
        | inl q ↦ inl (n, h, e ∙ ap some ((==_iff m n).0 q))
        | inr q ↦ inr (to (ground arith))
      ],
      λ s. elim s [ inl (k, a, b) ↦ ground (arith, ==_iff m n) | inr r ↦ ground (arith, from r) ],
    )

    any-public_set : (ps : List Text) → (any (λ p. p == n) (public_set ps) ≡ true) ↔ SameAsOne u ps
    unfolding public_set
    any-public_set [] = ground arith
    any-public_set (p ∷ ps) = any-cons_some p ps (norm_url p) refl (any-public_set ps)

  not-SameAsOne : (u : Text) (ps : List Text) → norm_url u ≡ none → ¬ SameAsOne u ps
  not-SameAsOne u [] h s = s
  not-SameAsOne u (p ∷ ps) h (inl (n, a, b)) = cc
  not-SameAsOne u (p ∷ ps) h (inr s) = not-SameAsOne u ps h s

  -- A URL counts as the shim's own exactly when it is one of its public URLs in another spelling.
  pub is_self_iff :
      (u : Text) (ps : List Text) → (is_self (public_set ps) u ≡ true) ↔ SameAsOne u ps
  unfolding is_self
  is_self_iff u ps = elim (Option-cases (norm_url u)) [
    | inl e ↦ rw (e, is_self) (λ t. cc, λ s. absurd (not-SameAsOne u ps e s))
    | inr (n, e) ↦ rw (e, is_self) (any-public_set u n e ps)
  ]

  -- One URL to dial for each candidate.
  abbrev pub Dials : Text → List Text → Text → Text → Type 0
  Dials loopback ps u v = (SameAsOne u ps × (v ≡ loopback)) ⊎ ((¬ SameAsOne u ps) × (v ≡ u))

  abbrev pub DialsAll : Text → List Text → List Text → List Text → Type 0
  DialsAll loopback ps [] [] = Unit
  DialsAll loopback ps (u ∷ us) (v ∷ vs) = Dials loopback ps u v × DialsAll loopback ps us vs
  DialsAll loopback ps _ _ = ⊥

  substitute_self-DialsAll :
      (us ps : List Text) (loopback : Text)
      → DialsAll loopback ps us (substitute_self us ps (some loopback))
  unfolding substitute_self
  substitute_self-DialsAll [] ps loopback = tt
  substitute_self-DialsAll (u ∷ us) ps loopback = elim (Bool-cases (is_self (public_set ps) u)) [
    | inl e ↦ rw e (inl ((is_self_iff u ps).0 e, refl), substitute_self-DialsAll us ps loopback)
    | inr n ↦
        rw n
          (inr (λ s. cc (n, (is_self_iff u ps).1 s), refl), substitute_self-DialsAll us ps loopback)
  ]

  abbrev pub candidates_of : List Text → List Text → List Text
  candidates_of relay_urls [] = relay_urls
  candidates_of relay_urls (h ∷ hints) = h ∷ hints

  -- With the colocated relay on, the bridge dials, in place of each relay hint (or configured relay,
  -- when there is no hint), the loopback address if it is one of the shim's own URLs in any
  -- spelling, and the URL itself otherwise; the shim's own are the public URLs, or the configured
  -- relays when none is set.
  pub resolve_relay_urls-DialsAll :
      (relay_urls public_urls hints : List Text) (loopback : Text)
      → DialsAll loopback
          (candidates_of relay_urls public_urls)
          (candidates_of relay_urls hints)
          (resolve_relay_urls relay_urls public_urls hints (some loopback))
  unfolding resolve_relay_urls
  resolve_relay_urls-DialsAll relay_urls [] [] loopback =
      substitute_self-DialsAll relay_urls relay_urls loopback
  resolve_relay_urls-DialsAll relay_urls [] (h ∷ hs) loopback =
      substitute_self-DialsAll (h ∷ hs) relay_urls loopback
  resolve_relay_urls-DialsAll relay_urls (p ∷ ps) [] loopback =
      substitute_self-DialsAll relay_urls (p ∷ ps) loopback
  resolve_relay_urls-DialsAll relay_urls (p ∷ ps) (h ∷ hs) loopback =
      substitute_self-DialsAll (h ∷ hs) (p ∷ ps) loopback
