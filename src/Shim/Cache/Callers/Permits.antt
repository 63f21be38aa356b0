-- ===== src/Shim/Cache/Callers/Permits.antt =====
-- `TransportCache::get` of crates/outlay-shim/src/transport.rs with many callers: the permits of the
-- cells, as builders come and go.
use outlay.Base.{
  ℕ, Bool, true, false, Option, none, ◌≡◌, ◌≢◌, ◌⊎◌, ap, sym, ◌∙◌, inl, inr, update, update_self,
  update-cases,
}
use outlay.Base.Text.{Text}
use outlay.Shim.Cache.Callers.{Task, building}

module _ {Transport : Type 0} where
  -- The builders are the holders of the permits, one for each cell, and their cells are empty.
  pub record Locks (cells : ℕ → Option Transport) (busy : ℕ → Bool) (tasks : ℕ → Task Transport)
      : Type 0 where
    pub holds : (i : ℕ) (k : Text) (n : ℕ) → tasks i ≡ building k n → busy n ≡ true
    pub empty : (i : ℕ) (k : Text) (n : ℕ) → tasks i ≡ building k n → cells n ≡ none
    pub alone :
        (i j : ℕ) (k l : Text) (n : ℕ) → tasks i ≡ building k n → tasks j ≡ building l n → i ≡ j
    pub holder : (n : ℕ) → busy n ≡ true → (i : ℕ) × (k : Text) × (tasks i ≡ building k n)

  abbrev pub IsOther : Task Transport → Type 0
  IsOther p = (k : Text) (n : ℕ) → p ≢ building k n

  -- Of a task that was replaced by another one.
  still :
      (tasks : ℕ → Task Transport) (i : ℕ) (p : Task Transport) (j : ℕ) (k : Text) (n : ℕ)
      → IsOther p
      → update tasks i p j ≡ building k n
      → (j ≢ i) × (tasks j ≡ building k n)
  still tasks i p j k n other h = elim (update-cases tasks i p j) [
    | inl (e, u) ↦ absurd (other k n (sym u ∙ h))
    | inr (e, u) ↦ (e, sym u ∙ h)
  ]

  beside :
      (tasks : ℕ → Task Transport) (i : ℕ) (p : Task Transport) (j : ℕ) (k : Text) (n : ℕ)
      → j ≢ i
      → tasks j ≡ building k n
      → update tasks i p j ≡ building k n
  beside tasks i p j k n ne h = elim (update-cases tasks i p j) [
    | inl (e, u) ↦ absurd (ne e)
    | inr (e, u) ↦ u ∙ h
  ]

  -- No builder comes or goes.
  pub quiet-Locks :
      (cells cells' : ℕ → Option Transport) (busy : ℕ → Bool) (tasks : ℕ → Task Transport) (i : ℕ)
      (p : Task Transport)
      → cells' ≡ cells
      → IsOther (tasks i)
      → IsOther p
      → Locks cells busy tasks
      → Locks cells' busy (update tasks i p)
  quiet-Locks cells cells' busy tasks i p e was other l = record {
    holds = λ j k n h. l.holds j k n (still tasks i p j k n other h).1;
    empty = λ j k n h. ap (λ c. c n) e ∙ l.empty j k n (still tasks i p j k n other h).1;
    alone = λ j j' k k' n h h'.
        l.alone j j' k k' n (still tasks i p j k n other h).1 (still tasks i p j' k' n other h').1;
    holder = λ n h.
        let (j, k, q) = l.holder n h in
        (j, k, beside tasks i p j k n (λ e. was k n (ap tasks (sym e) ∙ q)) q);
  }

  -- A builder leaves, and may fill its cell.
  pub freed-Locks :
      (cells cells' : ℕ → Option Transport) (busy busy' : ℕ → Bool) (tasks : ℕ → Task Transport)
      (i : ℕ) (k : Text) (n : ℕ) (p : Task Transport)
      → ((m : ℕ) → m ≢ n → cells' m ≡ cells m)
      → ((m : ℕ) → ((m ≡ n) × (busy' m ≡ false)) ⊎ ((m ≢ n) × (busy' m ≡ busy m)))
      → tasks i ≡ building k n
      → IsOther p
      → Locks cells busy tasks
      → Locks cells' busy' (update tasks i p)
  freed-Locks cells cells' busy busy' tasks i k n p e bs was other l =
      let apart : (j : ℕ) (k' : Text) (m : ℕ) → j ≢ i → tasks j ≡ building k' m → m ≢ n =
        λ j k' m ne h q. ne (l.alone j i k' k n (h ∙ ap (building k') q) was) in
      record {
        holds = λ j k' m h.
            let (ne, q) = still tasks i p j k' m other h in
            elim (bs m) [
              | inl (s, u) ↦ absurd (apart j k' m ne q s)
              | inr (s, u) ↦ u ∙ l.holds j k' m q
            ];
        empty = λ j k' m h.
            let (ne, q) = still tasks i p j k' m other h in
            e m (apart j k' m ne q) ∙ l.empty j k' m q;
        alone = λ j j' k' k'' m h h'.
            l.alone j j' k' k'' m (still tasks i p j k' m other h).1
              (still tasks i p j' k'' m other h').1;
        holder = λ m h. elim (bs m) [
          | inl (s, u) ↦ cc
          | inr (s, u) ↦
              let (j, k', q) = l.holder m (sym u ∙ h) in
              (j, k', beside tasks i p j k' m (λ r. s cc) q)
        ];
      }

  -- Of a task that began to build.
  builders :
      (tasks : ℕ → Task Transport) (i : ℕ) (k : Text) (n j : ℕ) (l : Text) (m : ℕ)
      → update tasks i (building k n) j ≡ building l m
      → ((j ≡ i) × (m ≡ n)) ⊎ ((j ≢ i) × (tasks j ≡ building l m))
  builders tasks i k n j l m h = elim (update-cases tasks i (building k n) j) [
    | inl (e, u) ↦ inl (e, cc)
    | inr (e, u) ↦ inr (e, sym u ∙ h)
  ]

  pub began-Locks :
      (cells cells' : ℕ → Option Transport) (busy busy' : ℕ → Bool) (tasks : ℕ → Task Transport)
      (i : ℕ) (k : Text) (n : ℕ)
      → ((m : ℕ) → cells' m ≡ cells m)
      → ((m : ℕ) → ((m ≡ n) × (busy' m ≡ true)) ⊎ ((m ≢ n) × (busy' m ≡ busy m)))
      → cells n ≡ none
      → busy n ≡ false
      → IsOther (tasks i)
      → Locks cells busy tasks
      → Locks cells' busy' (update tasks i (building k n))
  began-Locks cells cells' busy busy' tasks i k n cs bs c b was l = record {
    holds = λ j k' m h. elim (bs m) [
      | inl (s, u) ↦ u
      | inr (s, u) ↦ elim (builders tasks i k n j k' m h) [
        | inl (e, q) ↦ absurd (s q)
        | inr (e, q) ↦ u ∙ l.holds j k' m q
      ]
    ];
    empty = λ j k' m h. elim (builders tasks i k n j k' m h) [
      | inl (e, q) ↦ cs m ∙ ap cells q ∙ c
      | inr (e, q) ↦ cs m ∙ l.empty j k' m q
    ];
    alone = λ j j' k' k'' m h h'. elim (builders tasks i k n j k' m h) [
      | inl (e, q) ↦ elim (builders tasks i k n j' k'' m h') [
        | inl (e', q') ↦ e ∙ sym e'
        | inr (e', q') ↦ absurd (cc (l.holds j' k'' m q', q, b))
      ]
      | inr (e, q) ↦ elim (builders tasks i k n j' k'' m h') [
        | inl (e', q') ↦ absurd (cc (l.holds j k' m q, q', b))
        | inr (e', q') ↦ l.alone j j' k' k'' m q q'
      ]
    ];
    holder = λ m h. elim (bs m) [
      | inl (s, u) ↦ (i, k, update_self tasks i (building k n) ∙ ap (building k) (sym s))
      | inr (s, u) ↦
          let (j, k', q) = l.holder m (sym u ∙ h) in
          (j, k', beside tasks i (building k n) j k' m (λ e. was k' m (ap tasks (sym e) ∙ q)) q)
    ];
  }
