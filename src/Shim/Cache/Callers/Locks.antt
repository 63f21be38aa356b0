-- ===== src/Shim/Cache/Callers/Locks.antt =====
-- `TransportCache::get` of crates/outlay-shim/src/transport.rs with many callers: who holds the
-- permit of a cell.
use outlay.Base.{ℕ, Bool, false, ◌≡◌, ◌≢◌, ◌⊎◌, refl, ap, sym, ◌∙◌, inl, inr, update, update-cases}
use mathlib.Core.Path.{subst}
use outlay.Base.Text.{Text}
use outlay.Shim.Cache.{Lru, IsLru, OnceCell, State, lookup}
use outlay.Shim.Cache.Held
use outlay.Shim.Cache.Callers.{
  Task, building, World, entered, Step, arrive, read, begin, built, failed, stop_building,
  stop_waiting, leave, Reach, start, later,
}
use outlay.Shim.Cache.Callers.Permits.{IsOther, Locks, quiet-Locks, freed-Locks, began-Locks}

module _ (L : Lru) (law : IsLru L) {Transport : Type 0} (O : OnceCell Transport)
    (Builds : Text → Transport → Type 0) where
  abbrev pub W : Type 0
  W = World L O Builds

  abbrev pub Locked : W → Type 0
  Locked w = Locks (λ n. O.value (w.cache.cells n)) (λ n. O.is_taken (w.cache.cells n)) w.tasks

  pub lookup_cells : (k : Text) (s : State L O) → (lookup L O k s).1.cells ≡ s.cells
  lookup_cells k s = elim (Held.lookup-cases L law O k s) [
    | inl hit ↦ hit.cells_hit
    | inr miss ↦ miss.cells_miss
  ]

  taken-cases :
      (cells : ℕ → O.Cell) (n : ℕ) (d : O.Cell) {b : Bool}
      → O.is_taken d ≡ b
      → (m : ℕ)
      → ((m ≡ n) × (O.is_taken (update cells n d m) ≡ b))
        ⊎ ((m ≢ n) × (O.is_taken (update cells n d m) ≡ O.is_taken (cells m)))
  taken-cases cells n d h m = elim (update-cases cells n d m) [
    | inl (e, u) ↦ inl (e, ap O.is_taken u ∙ h)
    | inr (e, u) ↦ inr (e, ap O.is_taken u)
  ]

  value_beside :
      (cells : ℕ → O.Cell) (n : ℕ) (d : O.Cell) (m : ℕ)
      → m ≢ n
      → O.value (update cells n d m) ≡ O.value (cells m)
  value_beside cells n d m h = elim (update-cases cells n d m) [
    | inl (e, u) ↦ absurd (h e)
    | inr (e, u) ↦ ap O.value u
  ]

  -- A cell that is replaced by one with the same value.
  pub value_same :
      (cells : ℕ → O.Cell) (n : ℕ) (d : O.Cell)
      → O.value d ≡ O.value (cells n)
      → (m : ℕ) → O.value (update cells n d m) ≡ O.value (cells m)
  value_same cells n d h m = elim (update-cases cells n d m) [
    | inl (e, u) ↦ ap O.value u ∙ h ∙ ap (λ i. O.value (cells i)) (sym e)
    | inr (e, u) ↦ ap O.value u
  ]

  -- A builder of the cell `n` leaves, and the cell becomes `d`.
  left-Locked :
      (w : W) (i : ℕ) (k : Text) (n : ℕ) (d : O.Cell) (p : Task Transport)
      → O.is_taken d ≡ false
      → w.tasks i ≡ building k n
      → IsOther p
      → Locked w
      → Locked (entered L O Builds i n d p w)
  left-Locked w i k n d p free h other l =
      freed-Locks _ _ _ _ _ i k n p (value_beside w.cache.cells n d)
        (taken-cases w.cache.cells n d free) h other l

  Step-Locked : {v w : W} → Step L O Builds v w → Locked v → Locked w
  Step-Locked {v} (arrive i k h) l =
      quiet-Locks _ _ _ _ i _ (ap (λ f n. O.value (f n)) (lookup_cells k v.cache)) (λ k' n e. cc)
        (λ k' n e. cc)
        (subst (λ f. Locks (λ n. O.value (v.cache.cells n)) (λ n. O.is_taken (f n)) v.tasks)
          (sym (lookup_cells k v.cache)) l)
  Step-Locked (read i k n t h c) l = quiet-Locks _ _ _ _ i _ refl (λ k' m e. cc) (λ k' m e. cc) l
  Step-Locked {v} (begin i k n d h a) l =
      let (empty, free, still, taken) = O.acquire-eq-some (v.cache.cells n) d a in
      began-Locks _ _ _ _ _ i k n (value_same v.cache.cells n d (still ∙ sym empty))
        (taken-cases v.cache.cells n d taken) empty free (λ k' m e. cc) l
  Step-Locked {v} (built i k n t h b) l =
      left-Locked v i k n _ _ (O.is_taken-fill t _) h (λ k' m e. cc) l
  Step-Locked {v} (failed i k n e h) l =
      left-Locked v i k n _ _ (O.is_taken-release _) h (λ k' m e. cc) l
  Step-Locked {v} (stop_building i k n h) l =
      left-Locked v i k n _ _ (O.is_taken-release _) h (λ k' m e. cc) l
  Step-Locked (stop_waiting i k n h) l =
      quiet-Locks _ _ _ _ i _ refl (λ k' m e. cc) (λ k' m e. cc) l
  Step-Locked (leave i k n r h) l = quiet-Locks _ _ _ _ i _ refl (λ k' m e. cc) (λ k' m e. cc) l

  pub Reach-Locked : {entries : L.Cache} {w : W} → Reach L O Builds entries w → Locked w
  Reach-Locked start = record {
    holds = λ i k n h. cc;
    empty = λ i k n h. O.value-new;
    alone = λ i j k l n h. cc;
    holder = λ n h. absurd (cc (O.is_taken-new, h));
  }
  Reach-Locked (later r s) = Step-Locked s (Reach-Locked r)
