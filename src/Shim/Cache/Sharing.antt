-- ===== src/Shim/Cache/Sharing.antt =====
-- `TransportCache::get` of crates/outlay-shim/src/transport.rs: what an identity's callers share.
use outlay.Base.{false, none, List, [], ◌∷◌, ◌≡◌, ◌≢◌, inl, inr}
use outlay.Base.Res.{Result, ok}
use outlay.Base.Text.{Text}
use outlay.Shim.Cache.Held
use outlay.Shim.Cache.{Lru, IsLru, OnceCell, State, get}

module _ (L : Lru) (law : IsLru L) {Transport : Type 0} (O : OnceCell Transport) where
  abbrev pub Call : Type 0
  Call = Text × Result Text Transport

  abbrev pub run : List Call → State L O → State L O
  run [] s = s
  run ((k, built) ∷ cs) s = run cs (get L O k built s).state

  -- No call of a sequence evicts the identity.
  abbrev pub Kept : Text → List Call → State L O → Type 0
  Kept k [] s = Unit
  Kept k ((j, built) ∷ cs) s =
      (L.peek k (get L O j built s).state.entries ≢ none) × Kept k cs (get L O j built s).state

  run-Holds :
      (k : Text) (t : Transport) (cs : List Call) (s : State L O)
      → Held.Holds L law O k t s
      → Kept k cs s
      → Held.Holds L law O k t (run cs s)
  run-Holds k t [] s h p = h
  run-Holds k t ((j, built) ∷ cs) s h (p, q) = elim (Held.get_keeps L law O j k t built s h) [
    | inl g ↦ run-Holds k t cs (get L O j built s).state g q
    | inr g ↦ absurd (p g)
  ]

  -- Once a call for an identity was answered with a transport, every later call for it is answered
  -- with the same one and builds none, whatever is called for in between, unless the identity was
  -- evicted.
  pub get_shares :
      (k : Text) (t : Transport) (first_built built : Result Text Transport) (cs : List Call)
      (s : State L O)
      → (get L O k first_built s).result ≡ ok t
      → Kept k cs (get L O k first_built s).state
      → ((get L O k built (run cs (get L O k first_built s).state)).result ≡ ok t)
        × ((get L O k built (run cs (get L O k first_built s).state)).called ≡ false)
  get_shares k t first_built built cs s h p =
      let s1 = (get L O k first_built s).state in
      Held.get_of_held L law O k t built (run cs s1)
        (run-Holds k t cs s1 (Held.get-Holds L law O k t first_built s h) p)
