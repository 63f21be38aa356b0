-- ===== src/Shim/Cache/Callers.antt =====
-- `TransportCache::get` of crates/outlay-shim/src/transport.rs with many callers at once: each is a
-- task, and every `await` lets another one run. A task finds its cell under the lock, then enters the
-- `get_or_try_init` of the `OnceCell`, which says whether its closure may be started and what becomes
-- of the cell as the build ends or its task is dropped.
pub mod Permits
pub mod Locks
pub mod Cells
pub mod Owners
use outlay.Base.{ℕ, suc, ◌<◌, Bool, true, false, Option, some, none, ◌≡◌, update}
use outlay.Base.Res.{Result, ok, err}
use outlay.Base.Text.{Text}
use outlay.Shim.Cache.{Lru, OnceCell, State, lookup}

-- `waiting` is in front of `get_or_try_init`, `building` inside it; `k` is the identity and `n` the
-- cell.
pub data Task (Transport : Type 0) : Type 0 where
  idle : Task Transport
  waiting building : Text → ℕ → Task Transport
  answered : Text → ℕ → Result Text Transport → Task Transport

abbrev pub cell_of : {Transport : Type 0} → Task Transport → Option (Text × ℕ)
cell_of idle = none
cell_of (waiting k n) = some (k, n)
cell_of (building k n) = some (k, n)
cell_of (answered k n r) = some (k, n)

-- `Builds k t`: `build_client` can answer with `t` for the identity `k`.
module _ (L : Lru) {Transport : Type 0} (O : OnceCell Transport)
    (Builds : Text → Transport → Type 0) where
  pub record World : Type 0 where
    pub cache : State L O
    pub tasks : ℕ → Task Transport

  abbrev pub found : ℕ → Text → World → World
  found i k w =
      let r = lookup L O k w.cache in
      record w { cache = r.1; tasks = update w.tasks i (waiting k r.0) }

  -- The cell `n` becomes `d`, and the task `i` what `p` says.
  abbrev pub entered : ℕ → ℕ → O.Cell → Task Transport → World → World
  entered i n d p w =
      let c = w.cache in
      record w { cache = record c { cells = update c.cells n d }; tasks = update w.tasks i p }

  abbrev pub filled : ℕ → Text → ℕ → Transport → World → World
  filled i k n t w = entered i n (O.fill t (w.cache.cells n)) (answered k n (ok t)) w

  -- A build that is over without a value.
  abbrev pub released : ℕ → ℕ → Task Transport → World → World
  released i n p w = entered i n (O.release (w.cache.cells n)) p w

  abbrev pub became : ℕ → Task Transport → World → World
  became i p w = record w { tasks = update w.tasks i p }

  pub data Step (w : World) : World → Type 0 where
    arrive : (i : ℕ) (k : Text) → w.tasks i ≡ idle → Step w (found i k w)
    read :
        (i : ℕ) (k : Text) (n : ℕ) (t : Transport)
        → w.tasks i ≡ waiting k n
        → O.value (w.cache.cells n) ≡ some t
        → Step w (became i (answered k n (ok t)) w)
    begin :
        (i : ℕ) (k : Text) (n : ℕ) (d : O.Cell)
        → w.tasks i ≡ waiting k n
        → O.acquire (w.cache.cells n) ≡ some d
        → Step w (entered i n d (building k n) w)
    built :
        (i : ℕ) (k : Text) (n : ℕ) (t : Transport)
        → w.tasks i ≡ building k n
        → Builds k t
        → Step w (filled i k n t w)
    failed :
        (i : ℕ) (k : Text) (n : ℕ) (e : Text)
        → w.tasks i ≡ building k n
        → Step w (released i n (answered k n (err e)) w)
    stop_building :
        (i : ℕ) (k : Text) (n : ℕ) → w.tasks i ≡ building k n → Step w (released i n idle w)
    stop_waiting : (i : ℕ) (k : Text) (n : ℕ) → w.tasks i ≡ waiting k n → Step w (became i idle w)
    leave :
        (i : ℕ) (k : Text) (n : ℕ) (r : Result Text Transport)
        → w.tasks i ≡ answered k n r
        → Step w (became i idle w)

  -- A cache without an entry, and no caller.
  abbrev pub init : L.Cache → World
  init entries = record {
    cache = record { entries = entries; cells = λ n. O.new; next = 0 };
    tasks = λ i. idle;
  }

  pub data Reach (entries : L.Cache) : World → Type 0 where
    start : Reach entries (init entries)
    later : {v w : World} → Reach entries v → Step v w → Reach entries w
