-- ===== src/Shim/Cache/Callers/Cells.antt =====
-- `TransportCache::get` of crates/outlay-shim/src/transport.rs with many callers: to which identity a
-- cell belongs, as cells are found, made and filled.
use outlay.Base.{
  ℕ, ◌<◌, some, none, ◌≡◌, refl, ap, sym, ◌∙◌, inl, inr, update, update_self, update-cases,
  Bool-cases, arith,
}
use mathlib.Core.Path.{subst}
use outlay.Base.Res.{ok}
use outlay.Base.Text.{Text, ◌==◌, ==_iff}
use outlay.Shim.Cache.{Lru, IsLru, OnceCell, State}
use outlay.Shim.Cache.Held
use outlay.Shim.Cache.Callers.{Task, waiting, answered, cell_of}

module _ (L : Lru) (law : IsLru L) {Transport : Type 0} (O : OnceCell Transport)
    (Builds : Text → Transport → Type 0) where
  -- Every cell has one identity: those that map to it, wait on it or are answered from it, and the
  -- transport in it was built for it.
  pub record Owned (c : State L O) (tasks : ℕ → Task Transport) : Type 0 where
    pub owner : ℕ → Text
    pub cached : (k : Text) (n : ℕ) → L.peek k c.entries ≡ some n → (owner n ≡ k) × (n < c.next)
    pub seen :
        (i : ℕ) (k : Text) (n : ℕ) → cell_of (tasks i) ≡ some (k, n) → (owner n ≡ k) × (n < c.next)
    pub full :
        (n : ℕ) (t : Transport) → O.value (c.cells n) ≡ some t → Builds (owner n) t × (n < c.next)
    pub given :
        (i : ℕ) (k : Text) (n : ℕ) (t : Transport)
        → tasks i ≡ answered k n (ok t)
        → O.value (c.cells n) ≡ some t

  -- A task goes on with the cell that it has, or gives it up.
  pub moved-Owned :
      (c : State L O) (tasks : ℕ → Task Transport) (i : ℕ) (p : Task Transport)
      → ((k : Text) (n : ℕ) → cell_of p ≡ some (k, n) → cell_of (tasks i) ≡ some (k, n))
      → ((k : Text) (n : ℕ) (t : Transport)
          → p ≡ answered k n (ok t)
          → O.value (c.cells n) ≡ some t)
      → Owned c tasks
      → Owned c (update tasks i p)
  moved-Owned c tasks i p same right o = record {
    owner = o.owner;
    cached = o.cached;
    seen = λ j k n h. elim (update-cases tasks i p j) [
      | inl (e, u) ↦ o.seen i k n (same k n (ap cell_of (sym u) ∙ h))
      | inr (e, u) ↦ o.seen j k n (ap cell_of (sym u) ∙ h)
    ];
    full = o.full;
    given = λ j k n t h. elim (update-cases tasks i p j) [
      | inl (e, u) ↦ right k n t (sym u ∙ h)
      | inr (e, u) ↦ o.given j k n t (sym u ∙ h)
    ];
  }

  -- A cell is replaced by one with the same value.
  pub same-Owned :
      (c : State L O) (tasks : ℕ → Task Transport) (cells : ℕ → O.Cell)
      → ((m : ℕ) → O.value (cells m) ≡ O.value (c.cells m))
      → Owned c tasks
      → Owned (record c { cells = cells }) tasks
  same-Owned c tasks cells e o = record {
    owner = o.owner;
    cached = o.cached;
    seen = o.seen;
    full = λ n t h. o.full n t (sym (e n) ∙ h);
    given = λ i k n t h. e n ∙ o.given i k n t h;
  }

  -- An empty cell is filled.
  pub filled-Owned :
      (c : State L O) (tasks : ℕ → Task Transport) (i : ℕ) (k : Text) (n : ℕ) (t : Transport)
      (d : O.Cell)
      → O.value d ≡ some t
      → O.value (c.cells n) ≡ none
      → cell_of (tasks i) ≡ some (k, n)
      → Builds k t
      → Owned c tasks
      → Owned (record c { cells = update c.cells n d }) tasks
  filled-Owned c tasks i k n t d v e h b o =
      let (q, lt) = o.seen i k n h in
      record {
        owner = o.owner;
        cached = o.cached;
        seen = o.seen;
        full = λ m u f. elim (Held.value-cases L law O c.cells n d m) [
          | inl (s, g) ↦
              let r : u ≡ t = cc (f, g, v) in
              (
                subst (λ l. Builds l u) (sym q ∙ ap o.owner (sym s)) (subst (Builds k) (sym r) b),
                omega (arith, lt, s),
              )
          | inr (s, g) ↦ o.full m u (sym g ∙ f)
        ];
        given = λ j l m u f. elim (Held.value-cases L law O c.cells n d m) [
          | inl (s, g) ↦ absurd (cc (o.given j l m u f, s, e))
          | inr (s, g) ↦ g ∙ o.given j l m u f
        ];
      }

  -- A caller finds the cell that is there.
  pub hit-Owned :
      (c c' : State L O) (tasks : ℕ → Task Transport) (i : ℕ) (k : Text) (n : ℕ)
      → Held.IsHit L law O k c n c'
      → Owned c tasks
      → Owned c' (update tasks i (waiting k n))
  hit-Owned c c' tasks i k n hit o = record {
    owner = o.owner;
    cached = λ l m h.
        let (q, lt) = o.cached l m (sym (hit.entries_hit l) ∙ h) in
        (q, omega (arith, lt, hit.next_hit));
    seen = λ j l m h. elim (update-cases tasks i (waiting k n) j) [
      | inl (e, u) ↦
          let (q, lt) = o.cached k n hit.there in
          let (p, s) : (k ≡ l) × (n ≡ m) = (cc, cc) in
          (ap o.owner (sym s) ∙ q ∙ p, omega (arith, lt, s, hit.next_hit))
      | inr (e, u) ↦
          let (q, lt) = o.seen j l m (ap cell_of (sym u) ∙ h) in
          (q, omega (arith, lt, hit.next_hit))
    ];
    full = λ m t h.
        let (b, lt) = o.full m t (ap (λ f. O.value (f m)) (sym hit.cells_hit) ∙ h) in
        (b, omega (arith, lt, hit.next_hit));
    given = λ j l m t h. elim (update-cases tasks i (waiting k n) j) [
      | inl (e, u) ↦ absurd (cc (u, h))
      | inr (e, u) ↦ ap (λ f. O.value (f m)) hit.cells_hit ∙ o.given j l m t (sym u ∙ h)
    ];
  }

  -- A caller makes a new cell, which becomes its identity's.
  pub miss-Owned :
      (c c' : State L O) (tasks : ℕ → Task Transport) (i : ℕ) (k : Text) (n : ℕ)
      → Held.IsMiss L law O k c n c'
      → Owned c tasks
      → Owned c' (update tasks i (waiting k n))
  miss-Owned c c' tasks i k n miss o =
      let old : (l : Text) (m : ℕ)
          → (o.owner m ≡ l) × (m < c.next)
          → (update o.owner n k m ≡ l) × (m < c'.next) =
        λ l m (q, lt). elim (update-cases o.owner n k m) [
          | inl (e, u) ↦ absurd (omega (arith, e, miss.new, lt))
          | inr (e, u) ↦ (u ∙ q, omega (arith, lt, miss.next_miss))
        ] in
      let new : (update o.owner n k n ≡ k) × (n < c'.next) =
        (update_self o.owner n k, omega (arith, miss.new, miss.next_miss)) in
      record {
        owner = update o.owner n k;
        cached = λ l m h. elim (Bool-cases (l == k)) [
          | inl e ↦
              let r = (==_iff l k).0 e in
              let s : n ≡ m = cc (miss.entry, h, r) in
              (ap (update o.owner n k) (sym s) ∙ new.0 ∙ sym r, omega (arith, new.1, s))
          | inr e ↦ elim (miss.others l (λ r. cc ((==_iff l k).1 r, e))) [
            | inl q ↦ old l m (o.cached l m (sym q ∙ h))
            | inr q ↦ cc
          ]
        ];
        seen = λ j l m h. elim (update-cases tasks i (waiting k n) j) [
          | inl (e, u) ↦
              let (p, s) : (k ≡ l) × (n ≡ m) = (cc, cc) in
              (ap (update o.owner n k) (sym s) ∙ new.0 ∙ p, omega (arith, new.1, s))
          | inr (e, u) ↦ old l m (o.seen j l m (ap cell_of (sym u) ∙ h))
        ];
        full = λ m t h.
            let (b, lt) = o.full m t (ap (λ f. O.value (f m)) (sym miss.cells_miss) ∙ h) in
            let (q, lt') = old (o.owner m) m (refl, lt) in (subst (λ l. Builds l t) (sym q) b, lt');
        given = λ j l m t h. elim (update-cases tasks i (waiting k n) j) [
          | inl (e, u) ↦ absurd (cc (u, h))
          | inr (e, u) ↦ ap (λ f. O.value (f m)) miss.cells_miss ∙ o.given j l m t (sym u ∙ h)
        ];
      }
