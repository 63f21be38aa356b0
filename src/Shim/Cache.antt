-- ===== src/Shim/Cache.antt =====
-- `TransportCache::get` of crates/outlay-shim/src/transport.rs. The LRU map belongs to the `lru`
-- crate and the cells to tokio, and both are parameters; a cell, an `Arc<OnceCell<..>>`, is known by
-- its number, and `built` is what `build_client` would answer. Here one call is one step; `Callers` interleaves
-- the parts of many.
pub mod Held
pub mod Sharing
pub mod Callers
use outlay.Base.{ℕ, suc, Bool, true, false, Option, some, none, ◌≡◌, ◌≢◌, ◌⊎◌, update}
use outlay.Base.Res.{Result, ok, err}
use outlay.Base.Text.{Text}

-- `LruCache<String, ..>`: `get` and `put` also say which entry is the most recent one. `peek` reads.
pub record Lru : Type 1 where
  pub Cache : Type 0
  pub get : Text → Cache → Option ℕ × Cache
  pub put : Text → ℕ → Cache → Cache
  pub peek : Text → Cache → Option ℕ

-- A map of at least one entry: `get` changes no entry, `put` sets one and may evict another.
pub record IsLru (L : Lru) : Type 0 where
  pub get_value : (k : Text) (c : L.Cache) → (L.get k c).0 ≡ L.peek k c
  pub get_keeps : (j k : Text) (c : L.Cache) → L.peek j (L.get k c).1 ≡ L.peek j c
  pub put_self : (k : Text) (n : ℕ) (c : L.Cache) → L.peek k (L.put k n c) ≡ some n
  pub put_other :
      (j k : Text) (n : ℕ) (c : L.Cache)
      → j ≢ k
      → (L.peek j (L.put k n c) ≡ L.peek j c) ⊎ (L.peek j (L.put k n c) ≡ none)

-- `tokio::sync::OnceCell`, as its documentation has it: the value is set once, by one of the callers
-- of an empty cell at a time, and a caller that fails or is dropped leaves the cell empty for the
-- next.
pub record OnceCell (T : Type 0) : Type 1 where
  pub Cell : Type 0
  -- `OnceCell::new`, and `OnceCell::get`
  pub new : Cell
  pub value : Cell → Option T
  -- whether a caller is initialising it
  pub is_taken : Cell → Bool
  -- A call of `get_or_try_init` that nothing comes between, by the answer of its closure: the result,
  -- whether the closure was run, and the cell.
  pub get_or_try_init : Result Text T → Cell → Result Text T × Bool × Cell
  -- The parts of a call: its closure is started, if it may be; the closure answers with a value; it
  -- fails, or its caller is dropped.
  pub acquire : Cell → Option Cell
  pub fill : T → Cell → Cell
  pub release : Cell → Cell
  pub value-new : value new ≡ none
  pub is_taken-new : is_taken new ≡ false
  pub init_full :
      (r : Result Text T) (c : Cell) (t : T)
      → value c ≡ some t
      → get_or_try_init r c ≡ (ok t, false, c)
  pub init_ok :
      (t : T) (c : Cell)
      → value c ≡ none
      → (d : Cell) × (get_or_try_init (ok t) c ≡ (ok t, true, d)) × (value d ≡ some t)
  pub init_err :
      (e : Text) (c : Cell)
      → value c ≡ none
      → (d : Cell) × (get_or_try_init (err e) c ≡ (err e, true, d)) × (value d ≡ none)
  pub acquire-eq-some :
      (c d : Cell)
      → acquire c ≡ some d
      → (value c ≡ none) × (is_taken c ≡ false) × (value d ≡ none) × (is_taken d ≡ true)
  pub value-fill : (t : T) (c : Cell) → is_taken c ≡ true → value (fill t c) ≡ some t
  pub is_taken-fill : (t : T) (c : Cell) → is_taken (fill t c) ≡ false
  pub value-release : (c : Cell) → value (release c) ≡ value c
  pub is_taken-release : (c : Cell) → is_taken (release c) ≡ false

module _ (L : Lru) {Transport : Type 0} (O : OnceCell Transport) where
  open L use {Cache, peek}

  pub record State : Type 0 where
    pub entries : Cache
    pub cells : ℕ → O.Cell
    -- the number of the next cell
    pub next : ℕ

  abbrev pub found : Text → State → Option ℕ × Cache → ℕ × State
  found hex s (some n, entries) = (n, record s { entries = entries })
  found hex s (none, entries) =
      (s.next, record s { entries = L.put hex s.next entries; next = suc s.next })

  -- The locked part: the cell of an identity, a new one where it has none.
  unfoldable pub lookup : Text → State → ℕ × State
  lookup hex s = found hex s (L.get hex s.entries)

  -- The answer, whether `build_client` was called, and the state.
  pub record Answer : Type 0 where
    pub result : Result Text Transport
    pub called : Bool
    pub state : State

  abbrev pub stored : ℕ → State → Result Text Transport × Bool × O.Cell → Answer
  stored n s (result, called, cell) = record {
    result = result;
    called = called;
    state = record s { cells = update s.cells n cell };
  }

  unfoldable pub get : Text → Result Text Transport → State → Answer
  unfolding lookup
  get hex built s = let r = lookup hex s in stored r.0 r.1 (O.get_or_try_init built (r.1.cells r.0))
