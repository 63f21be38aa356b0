-- ===== src/Shim/Cache/Callers/Owners.antt =====
-- `TransportCache::get` of crates/outlay-shim/src/transport.rs with many callers: whose transport a
-- caller is answered with.
use outlay.Base.{ℕ, none, [], ◌≡◌, ap, sym, ◌∙◌, inl, inr, some, update, update_self}
use mathlib.Core.Path.{subst}
use outlay.Base.Res.{ok}
use outlay.Base.Text.{Text}
use outlay.Shim.Cache.{Lru, IsLru, OnceCell, State, lookup}
use outlay.Shim.Cache.Held
use outlay.Shim.Cache.Callers.{
  Task, waiting, answered, cell_of, World, Step, arrive, read, begin, built, failed, stop_building,
  stop_waiting, leave, Reach, start, later,
}
use outlay.Shim.Cache.Callers.Permits.{Locks}
use outlay.Shim.Cache.Callers.Locks.{Reach-Locked, value_same}
use outlay.Shim.Cache.Callers.Cells.{
  Owned, same-Owned, moved-Owned, filled-Owned, hit-Owned, miss-Owned,
}

module _ (L : Lru) (law : IsLru L) {Transport : Type 0} (O : OnceCell Transport)
    (Builds : Text → Transport → Type 0) where
  abbrev pub Sound : World L O Builds → Type 0
  Sound w = Owned L law O Builds w.cache w.tasks

  arrive-Owned :
      (k : Text) (i : ℕ) (c : State L O) (tasks : ℕ → Task Transport)
      → Owned L law O Builds c tasks
      → Owned L law O Builds (lookup L O k c).1 (update tasks i (waiting k (lookup L O k c).0))
  arrive-Owned k i c tasks o = elim (Held.lookup-cases L law O k c) [
    | inl hit ↦ hit-Owned L law O Builds c _ tasks i k _ hit o
    | inr miss ↦ miss-Owned L law O Builds c _ tasks i k _ miss o
  ]

  released-Owned :
      (c : State L O) (tasks : ℕ → Task Transport) (n : ℕ)
      → Owned L law O Builds c tasks
      → Owned L law O Builds (record c { cells = update c.cells n (O.release (c.cells n)) }) tasks
  released-Owned c tasks n o =
      same-Owned L law O Builds c tasks _
        (value_same L law O Builds c.cells n _ (O.value-release (c.cells n))) o

  Step-Sound :
      {v w : World L O Builds}
      → Step L O Builds v w
      → Locks (λ n. O.value (v.cache.cells n)) (λ n. O.is_taken (v.cache.cells n)) v.tasks
      → Sound v
      → Sound w
  Step-Sound {v} (arrive i k h) l o = arrive-Owned k i v.cache v.tasks o
  Step-Sound {v} (read i k n t h c) l o =
      moved-Owned L law O Builds v.cache v.tasks i _ (λ k' m e. ap cell_of h ∙ e) (λ k' m u e. cc) o
  Step-Sound {v} (begin i k n d h a) l o =
      let (empty, free, still, taken) = O.acquire-eq-some (v.cache.cells n) d a in
      moved-Owned L law O Builds _ v.tasks i _ (λ k' m e. ap cell_of h ∙ e) (λ k' m u e. cc)
        (same-Owned L law O Builds v.cache v.tasks _
          (value_same L law O Builds v.cache.cells n d (still ∙ sym empty)) o)
  Step-Sound {v} (built i k n t h b) l o =
      let v' = O.value-fill t (v.cache.cells n) (l.holds i k n h) in
      moved-Owned L law O Builds _ v.tasks i _ (λ k' m e. ap cell_of h ∙ e)
        (λ k' m u e.
          let same : t ≡ u = cc (e) in
          let at : n ≡ m = cc (e) in
          ap (λ x. O.value (update v.cache.cells n (O.fill t (v.cache.cells n)) x)) (sym at)
          ∙ ap O.value (update_self v.cache.cells n (O.fill t (v.cache.cells n)))
          ∙ v'
          ∙ ap some same)
        (filled-Owned L law O Builds v.cache v.tasks i k n t _ v' (l.empty i k n h) (ap cell_of h) b
          o)
  Step-Sound {v} (failed i k n e h) l o =
      moved-Owned L law O Builds _ v.tasks i _ (λ k' m e. ap cell_of h ∙ e) (λ k' m u e. cc)
        (released-Owned v.cache v.tasks n o)
  Step-Sound {v} (stop_building i k n h) l o =
      moved-Owned L law O Builds _ v.tasks i _ (λ k' m e. cc) (λ k' m u e. cc)
        (released-Owned v.cache v.tasks n o)
  Step-Sound {v} (stop_waiting i k n h) l o =
      moved-Owned L law O Builds v.cache v.tasks i _ (λ k' m e. cc) (λ k' m u e. cc) o
  Step-Sound {v} (leave i k n r h) l o =
      moved-Owned L law O Builds v.cache v.tasks i _ (λ k' m e. cc) (λ k' m u e. cc) o

  -- `LruCache::new`
  abbrev pub IsEmpty : L.Cache → Type 0
  IsEmpty entries = (k : Text) → L.peek k entries ≡ none

  Reach-Sound :
      {entries : L.Cache} {w : World L O Builds}
      → IsEmpty entries
      → Reach L O Builds entries w
      → Sound w
  Reach-Sound empty start = record {
    owner = λ n. [];
    cached = λ k n h. absurd (cc (empty k, h));
    seen = λ i k n h. cc;
    full = λ n t h. absurd (cc (O.value-new, h));
    given = λ i k n t h. cc;
  }
  Reach-Sound empty (later r s) = Step-Sound s (Reach-Locked L law O Builds r) (Reach-Sound empty r)

  -- However the calls interleave, and whichever builds fail or are dropped: a caller is answered only
  -- with a transport that was built for its own identity, and callers that are answered from one cell
  -- share one transport.
  pub Reach-Isolated :
      {entries : L.Cache} {w : World L O Builds}
      → IsEmpty entries
      → Reach L O Builds entries w
      → ((i : ℕ) (k : Text) (n : ℕ) (t : Transport) → w.tasks i ≡ answered k n (ok t) → Builds k t)
        × ((i j : ℕ) (k l : Text) (n : ℕ) (t u : Transport)
            → w.tasks i ≡ answered k n (ok t)
            → w.tasks j ≡ answered l n (ok u)
            → (k ≡ l) × (t ≡ u))
  Reach-Isolated empty r =
      let o = Reach-Sound empty r in
      (
        λ i k n t h.
            subst (λ l. Builds l t) (o.seen i k n (ap cell_of h)).0
              (o.full n t (o.given i k n t h)).0,
        λ i j k l n t u h g.
            let (p, _) = o.seen i k n (ap cell_of h) in
            let (q, _) = o.seen j l n (ap cell_of g) in
            (sym p ∙ q, cc (o.given i k n t h, o.given j l n u g)),
      )
