-- ===== src/Shim/Cache/Held.antt =====
-- `TransportCache::get` of crates/outlay-shim/src/transport.rs: one call, for an identity that holds
-- a transport and beside it.
use outlay.Base.{
  ℕ, suc, false, Option, some, none, ◌≡◌, ◌≢◌, ◌⊎◌, refl, ap, sym, ◌∙◌, inl, inr, update,
  update_self, update-cases, Option-cases,
}
use outlay.Base.Res.{Result, ok, err}
use outlay.Base.Text.{Text}
use outlay.Shim.Cache.{Lru, IsLru, OnceCell, State, Answer, lookup, found, stored, get}

module _ (L : Lru) (law : IsLru L) {Transport : Type 0} (O : OnceCell Transport) where
  abbrev pub Cached : Text → ℕ → State L O → Type 0
  Cached k n s = L.peek k s.entries ≡ some n

  -- An identity's transport is the one in its cell.
  abbrev pub Holds : Text → Transport → State L O → Type 0
  Holds k t s = (n : ℕ) × Cached k n s × (O.value (s.cells n) ≡ some t)

  -- The two ways in which `lookup` finds the cell `n`: it was there, or it is new.
  pub record IsHit (k : Text) (s : State L O) (n : ℕ) (s' : State L O) : Type 0 where
    pub there : Cached k n s
    pub cells_hit : s'.cells ≡ s.cells
    pub next_hit : s'.next ≡ s.next
    pub entries_hit : (j : Text) → L.peek j s'.entries ≡ L.peek j s.entries

  pub record IsMiss (k : Text) (s : State L O) (n : ℕ) (s' : State L O) : Type 0 where
    pub absent : L.peek k s.entries ≡ none
    pub new : n ≡ s.next
    pub cells_miss : s'.cells ≡ s.cells
    pub next_miss : s'.next ≡ suc s.next
    pub entry : L.peek k s'.entries ≡ some n
    pub others :
        (j : Text)
        → j ≢ k
        → (L.peek j s'.entries ≡ L.peek j s.entries) ⊎ (L.peek j s'.entries ≡ none)

  found-cases :
      (k : Text) (s : State L O) (o : Option ℕ) (c : L.Cache)
      → L.get k s.entries ≡ (o, c)
      → IsHit k s (found L O k s (o, c)).0 (found L O k s (o, c)).1
        ⊎ IsMiss k s (found L O k s (o, c)).0 (found L O k s (o, c)).1
  found-cases k s (some n) c e = inl (record {
    there = sym (law.get_value k s.entries) ∙ ap (λ r. r.0) e;
    cells_hit = refl;
    next_hit = refl;
    entries_hit = λ j. ap (λ r. L.peek j r.1) (sym e) ∙ law.get_keeps j k s.entries;
  })
  found-cases k s none c e = inr (record {
    absent = sym (law.get_value k s.entries) ∙ ap (λ r. r.0) e;
    new = refl;
    cells_miss = refl;
    next_miss = refl;
    entry = law.put_self k s.next c;
    others = λ j h. elim (law.put_other j k s.next c h) [
      | inl x ↦ inl (x ∙ ap (λ r. L.peek j r.1) (sym e) ∙ law.get_keeps j k s.entries)
      | inr x ↦ inr x
    ];
  })

  pub lookup-cases :
      (k : Text) (s : State L O)
      → IsHit k s (lookup L O k s).0 (lookup L O k s).1
        ⊎ IsMiss k s (lookup L O k s).0 (lookup L O k s).1
  unfolding lookup
  lookup-cases k s = found-cases k s (L.get k s.entries).0 (L.get k s.entries).1 refl

  pub lookup-Cached : (k : Text) (s : State L O) → Cached k (lookup L O k s).0 (lookup L O k s).1
  lookup-Cached k s = elim (lookup-cases k s) [
    | inl hit ↦ hit.entries_hit k ∙ hit.there
    | inr miss ↦ miss.entry
  ]

  -- A cell as it is after one of them was put in place of an old one.
  pub value-cases :
      (cells : ℕ → O.Cell) (n : ℕ) (d : O.Cell) (m : ℕ)
      → ((m ≡ n) × (O.value (update cells n d m) ≡ O.value d))
        ⊎ ((m ≢ n) × (O.value (update cells n d m) ≡ O.value (cells m)))
  value-cases cells n d m = elim (update-cases cells n d m) [
    | inl (e, u) ↦ inl (e, ap O.value u)
    | inr (e, u) ↦ inr (e, ap O.value u)
  ]

  -- The call of `get_or_try_init` on the cell `n` of a state.
  abbrev pub initialised : ℕ → Result Text Transport → State L O → Answer L O
  initialised n built s = stored L O n s (O.get_or_try_init built (s.cells n))

  lookup_of_held :
      (k : Text) (t : Transport) (s : State L O)
      → Holds k t s
      → O.value ((lookup L O k s).1.cells (lookup L O k s).0) ≡ some t
  lookup_of_held k t s (n, h, c) = elim (lookup-cases k s) [
    | inl hit ↦ let same : (lookup L O k s).0 ≡ n = cc (hit.there, h) in rw (hit.cells_hit, same, c)
    | inr miss ↦ absurd (cc (miss.absent, h))
  ]

  -- A transport that an identity holds is the answer to its every call, and nothing is built.
  pub get_of_held :
      (k : Text) (t : Transport) (built : Result Text Transport) (s : State L O)
      → Holds k t s
      → ((get L O k built s).result ≡ ok t) × ((get L O k built s).called ≡ false)
  unfolding get
  get_of_held k t built s h = rw (O.init_full built _ t (lookup_of_held k t s h)) (refl, refl)

  -- The cell that answered holds what it answered with.
  init_value_of_empty :
      (built : Result Text Transport) (c : O.Cell) (t : Transport)
      → O.value c ≡ none
      → (O.get_or_try_init built c).0 ≡ ok t
      → O.value (O.get_or_try_init built c).2 ≡ some t
  init_value_of_empty (ok u) c t e h =
      let (d, f, g) = O.init_ok u c e in
      let same : u ≡ t = cc (f, h) in ap (λ x. O.value (x.2)) f ∙ g ∙ ap some same
  init_value_of_empty (err x) c t e h = let (d, f, g) = O.init_err x c e in absurd (cc (f, h))

  init-value :
      (built : Result Text Transport) (c : O.Cell) (t : Transport)
      → (O.get_or_try_init built c).0 ≡ ok t
      → O.value (O.get_or_try_init built c).2 ≡ some t
  init-value built c t h = elim (Option-cases (O.value c)) [
    | inr (u, e) ↦
        let f = O.init_full built c u e in
        let same : u ≡ t = cc (f, h) in ap (λ x. O.value (x.2)) f ∙ e ∙ ap some same
    | inl e ↦ init_value_of_empty built c t e h
  ]

  -- Whoever is answered leaves the identity with that transport.
  pub get-Holds :
      (k : Text) (t : Transport) (built : Result Text Transport) (s : State L O)
      → (get L O k built s).result ≡ ok t
      → Holds k t (get L O k built s).state
  unfolding get
  get-Holds k t built s h = (
    (lookup L O k s).0,
    lookup-Cached k s,
    ap O.value (update_self (lookup L O k s).1.cells (lookup L O k s).0 _)
        ∙ init-value built ((lookup L O k s).1.cells (lookup L O k s).0) t h,
  )

  -- A cell that is full stays as it is.
  initialised_keeps :
      (m : ℕ) (t : Transport) (built : Result Text Transport) (n : ℕ) (s : State L O)
      → O.value (s.cells m) ≡ some t
      → O.value ((initialised n built s).state.cells m) ≡ some t
  initialised_keeps m t built n s h =
      elim (value-cases s.cells n (O.get_or_try_init built (s.cells n)).2 m) [
        | inl (e, u) ↦
            let here : O.value (s.cells n) ≡ some t = ap (λ i. O.value (s.cells i)) (sym e) ∙ h in
            u ∙ ap (λ x. O.value (x.2)) (O.init_full built (s.cells n) t here) ∙ here
        | inr (e, u) ↦ u ∙ h
      ]

  lookup_keeps :
      (j k : Text) (t : Transport) (s : State L O)
      → Holds k t s
      → Holds k t (lookup L O j s).1 ⊎ (L.peek k (lookup L O j s).1.entries ≡ none)
  lookup_keeps j k t s (n, h, c) = elim (lookup-cases j s) [
    | inl hit ↦ inl (n, hit.entries_hit k ∙ h, rw (hit.cells_hit, c))
    | inr miss ↦ elim (miss.others k (λ q. cc (q, miss.absent, h))) [
      | inl e ↦ inl (n, e ∙ h, rw (miss.cells_miss, c))
      | inr e ↦ inr e
    ]
  ]

  -- A call for any identity leaves every transport where it is, or evicts it.
  pub get_keeps :
      (j k : Text) (t : Transport) (built : Result Text Transport) (s : State L O)
      → Holds k t s
      → Holds k t (get L O j built s).state ⊎ (L.peek k (get L O j built s).state.entries ≡ none)
  unfolding get
  get_keeps j k t built s h =
      let l = lookup L O j s in
      elim (lookup_keeps j k t s h) [
        | inl (n, p, c) ↦ inl (n, p, initialised_keeps n t built l.0 l.1 c)
        | inr e ↦ inr e
      ]
