-- ===== src/Relay/Spawn.antt =====
-- `BundledRelay::spawn` and `ensure_parent` of crates/outlay-relay/src/lib.rs. The file system, the
-- SQLite database of `nostr_sqlite` and `LocalRelay` are not part of the repository: their answers
-- are parameters, and what is asked of them stands in the trace, in order.
pub mod Order
use outlay.Base.{
  ℕ, Bool, true, false, not, ◌&&◌, Option, some, none, List, [], ◌∷◌, map, if◌then◌else◌,
}
use outlay.Base.Res.{Result, ok, err, map_err, ok_or}
use outlay.Base.Traced.{Traced, ◌>>=◌, step, pure}
use outlay.Base.Text.{Text, ◌==◌}
use outlay.Relay.Bind.{BindError, bind_with_port_scan}

pub data Backend : Type 0 where
  memory sqlite : Backend

-- `MemoryDatabase::unbounded()`, the `NostrSqlite` of a file, and `MemorylessDatabase`.
pub data Database : Type 0 where
  unbounded_memory : Database
  in_file : Text → Database
  memoryless : Database

pub record Host : Type 0 where
  -- `Path::parent` and `Path::exists`
  pub parent : Text → Option Text
  pub exists : Text → Bool
  pub create_dir_all : Text → Result Text (Unit {0})
  -- `NostrSqlite::builder().in_file(path).build()`
  pub open_sqlite : Text → Result Text (Unit {0})
  -- a `LocalRelay` with a database on a port, with its URL
  pub run : Database → ℕ → Result Text Text

pub data Effect : Type 0 where
  create_dir open_file : Text → Effect
  try_port : Database → ℕ → Effect

pub data SpawnError : Type 0 where
  no_db_path : SpawnError
  -- "creating database directory", with the directory, and "opening sqlite database"
  creating : Text → Text → SpawnError
  opening : Text → SpawnError
  binding : BindError → SpawnError

-- The port that it runs on and its URL.
pub record BundledRelay : Type 0 where
  pub port : ℕ
  pub url : Text

module _ (H : Host) where
  -- The inner `if`, for a path that has a parent.
  unfoldable pub ensure_dir : Text → Traced Effect SpawnError (Unit {0})
  ensure_dir dir =
      if not (dir == []) && not (H.exists dir)
      then step (create_dir dir) (map_err (creating dir) (H.create_dir_all dir))
      else pure (ok tt)

  unfoldable pub ensure_parent : Option Text → Traced Effect SpawnError (Unit {0})
  unfolding ensure_dir
  ensure_parent none = pure (ok tt)
  ensure_parent (some dir) = ensure_dir dir

  unfoldable pub open_database : Backend → Option Text → Traced Effect SpawnError Database
  unfolding ensure_parent
  open_database memory db_path = pure (ok unbounded_memory)
  open_database sqlite db_path = do
    path ← pure (ok_or no_db_path db_path)
    _ ← ensure_parent (H.parent path)
    _ ← step (open_file path) (map_err opening (H.open_sqlite path))
    pure (ok (in_file path))

  unfoldable pub relay_of : Result BindError (ℕ × Text) → Result SpawnError BundledRelay
  relay_of (ok (port, url)) = ok (record { port = port; url = url })
  relay_of (err e) = err (binding e)

  unfoldable pub bound :
      Database → List ℕ × Result BindError (ℕ × Text) → Traced Effect SpawnError BundledRelay
  unfolding relay_of
  bound db (tried, answer) = (map (try_port db) tried, relay_of answer)

  unfoldable pub spawn : Backend → Option Text → ℕ → Traced Effect SpawnError BundledRelay
  unfolding open_database bound
  spawn backend db_path port = do
    db ← open_database backend db_path
    bound db (bind_with_port_scan H.run db port)

  unfoldable pub spawn_memoryless : ℕ → Traced Effect SpawnError BundledRelay
  unfolding bound
  spawn_memoryless port = bound memoryless (bind_with_port_scan H.run memoryless port)
