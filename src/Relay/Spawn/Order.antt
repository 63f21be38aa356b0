-- ===== src/Relay/Spawn/Order.antt =====
-- `BundledRelay::spawn` of crates/outlay-relay/src/lib.rs: what it does before it opens a port, and
-- where it ends on an error.
use outlay.Base.{true, not, ◌&&◌, Option, some, none, List, [], ◌∷◌, ◌++◌, ◌≡◌, ◌⊎◌, All}
use outlay.Base.Res.{ok, err, map_err}
use outlay.Base.Traced.{Traced, ◌>>=◌, step, pure}
use outlay.Base.Text.{Text, ◌==◌}
use outlay.Relay.Spawn.{
  Backend, memory, sqlite, Database, unbounded_memory, in_file, Host, Effect, create_dir, open_file,
  try_port, SpawnError, opening,
}

module _ (H : Host) where
  -- A directory that has to be made before a file of it is opened.
  abbrev pub Missing : Option Text → Type 0
  Missing none = ⊥
  Missing (some dir) = (not (dir == []) && not (H.exists dir)) ≡ true

  -- The directory is there, or was made.
  abbrev pub HasDir : Option Text → List Effect → Type 0
  HasDir parent done =
      ((¬ Missing parent) × (done ≡ []))
      ⊎ ((dir : Text) × (parent ≡ some dir)
          × Missing parent
          × (H.create_dir_all dir ≡ ok tt)
          × (done ≡ create_dir dir ∷ []))

  -- What was done for a database that is open, and which one it is.
  abbrev pub Opened : Backend → Option Text → Database → List Effect → Type 0
  Opened memory db_path db done = (db ≡ unbounded_memory) × (done ≡ [])
  Opened sqlite db_path db done =
      (path : Text) × (before : List Effect) × (db_path ≡ some path)
      × (db ≡ in_file path)
      × HasDir (H.parent path) before
      × (H.open_sqlite path ≡ ok tt)
      × (done ≡ before ++ open_file path ∷ [])

  abbrev pub IsFile : Effect → Type 0
  IsFile (create_dir dir) = Unit
  IsFile (open_file path) = Unit
  IsFile (try_port db port) = ⊥

  -- A part of the run that is done, as `Done` says, or that failed without trying a port.
  abbrev pub DoneOrFailed :
      {A : Type 0} → (A → List Effect → Type 0) → Traced Effect SpawnError A → Type 0
  DoneOrFailed {A} Done r =
      ((a : A) × (r.1 ≡ ok a) × Done a r.0) ⊎ ((e : SpawnError) × (r.1 ≡ err e) × All IsFile r.0)

  -- The rest of opening a file, behind what was done for its directory.
  abbrev pub opened_file : Text → List Effect → Traced Effect SpawnError Database
  opened_file path before =
      let opened : Traced Effect SpawnError Database =
        step (open_file path) (map_err opening (H.open_sqlite path))
        >>= (λ _. pure (ok (in_file path))) in
      (before ++ opened.0, opened.1)
