-- ===== src/Shim/Path.antt =====
-- `parse_path` of crates/outlay-shim/src/path.rs. Public keys, their hex form and NIP-19 belong to
-- `nostr_sdk`, and are parameters.
use outlay.Base.{
  Bool, true, false, ◌&&◌, List, [], ◌++◌, ◌≡◌, ◌⊎◌, refl, ap, sym, ◌∙◌, inl, inr, arith,
  Bool-cases, if◌then◌else◌, eqb, all,
}
use outlay.Base.Res.{Result, ok, err}
use outlay.Base.Text.{Text, codes, trim, is_empty, len, is_ascii_hexdigit}

-- `Nip19`: the two entities that name a server, and the others.
pub data Nip19 (K : Type 0) : Type 0 where
  pubkey : K → Nip19 K
  -- with `as_str_without_trailing_slash` of its relays
  profile : K → List Text → Nip19 K
  other : Nip19 K

pub record Keys : Type 1 where
  pub PublicKey : Type 0
  pub from_hex : Text → Result Text PublicKey
  pub to_hex : PublicKey → Text
  pub from_bech32 : Text → Result Text (Nip19 PublicKey)

pub record ParsedPath : Type 0 where
  pub hex : Text
  pub relay_hints : List Text

pub data PathError : Type 0 where
  not_a_pubkey : PathError
  invalid : Text → PathError

-- The `#[error]` texts.
unfoldable pub path_error_text : PathError → Text
path_error_text not_a_pubkey = codes "not a server pubkey (expected 64-char hex, npub, or nprofile)"
path_error_text (invalid e) = codes "invalid pubkey: " ++ e

unfoldable pub looks_hex : Text → Bool
looks_hex s = eqb (len s) 64 && all is_ascii_hexdigit s

module _ (K : Keys) where
  open K use {PublicKey, from_hex, to_hex, from_bech32}

  unfoldable pub from_entity : Result Text (Nip19 PublicKey) → Result PathError ParsedPath
  from_entity (ok (pubkey pk)) = ok (record { hex = to_hex pk; relay_hints = [] })
  from_entity (ok (profile pk relays)) = ok (record { hex = to_hex pk; relay_hints = relays })
  from_entity (ok other) = err not_a_pubkey
  from_entity (err e) = err (invalid e)

  unfoldable pub from_key : Result Text PublicKey → Result PathError ParsedPath
  from_key (ok pk) = ok (record { hex = to_hex pk; relay_hints = [] })
  from_key (err e) = err (invalid e)

  unfoldable pub parse_path : Text → Result PathError ParsedPath
  unfolding looks_hex from_entity from_key
  parse_path raw =
      let s = trim raw in
      if is_empty s
      then err not_a_pubkey
      else if looks_hex s
      then from_key (from_hex s)
      else from_entity (from_bech32 s)

  -- The key that a segment names.
  abbrev pub Names : Text → PublicKey → Type 0
  Names s pk =
      ((looks_hex s ≡ true) × (from_hex s ≡ ok pk))
      ⊎ ((looks_hex s ≡ false)
          × ((from_bech32 s ≡ ok (pubkey pk))
              ⊎ ((relays : List Text) × (from_bech32 s ≡ ok (profile pk relays)))))

  from_key-Names :
      (r : Result Text PublicKey) (p : ParsedPath)
      → from_key r ≡ ok p
      → (pk : PublicKey) × (r ≡ ok pk) × (p.hex ≡ to_hex pk) × (p.relay_hints ≡ [])
  unfolding from_key
  from_key-Names (ok pk) p h = (pk, refl, ground arith, ground arith)
  from_key-Names (err e) p h = cc

  from_entity-Names :
      (r : Result Text (Nip19 PublicKey)) (p : ParsedPath)
      → from_entity r ≡ ok p
      → (pk : PublicKey) × ((r ≡ ok (pubkey pk))
          ⊎ ((relays : List Text) × (r ≡ ok (profile pk relays))))
        × (p.hex ≡ to_hex pk)
  unfolding from_entity
  from_entity-Names (ok (pubkey pk)) p h = (pk, inl refl, ground arith)
  from_entity-Names (ok (profile pk relays)) p h = (pk, inr (relays, refl), ground arith)
  from_entity-Names (ok other) p h = cc
  from_entity-Names (err e) p h = cc

  -- A segment that is accepted names a public key, as 64 hex digits, an npub or an nprofile, and the
  -- hex that the transports are keyed by is that key's own, however the segment spells it.
  pub parse_path-Names :
      (raw : Text) (p : ParsedPath)
      → parse_path raw ≡ ok p
      → (pk : PublicKey) × Names (trim raw) pk × (p.hex ≡ to_hex pk)
  unfolding parse_path
  parse_path-Names raw p h = elim (Bool-cases (is_empty (trim raw))) [
    | inl e ↦ absurd (ground arith)
    | inr n ↦ elim (Bool-cases (looks_hex (trim raw))) [
      | inl l ↦
          let g : from_key (from_hex (trim raw)) ≡ ok p = ground arith in
          let (pk, e, f, _) = from_key-Names (from_hex (trim raw)) p g in (pk, inl (l, e), f)
      | inr l ↦
          let g : from_entity (from_bech32 (trim raw)) ≡ ok p = ground arith in
          let (pk, e, f) = from_entity-Names (from_bech32 (trim raw)) p g in (pk, inr (l, e), f)
    ]
  ]

  Names-unique : (s : Text) (pk pk' : PublicKey) → Names s pk → Names s pk' → pk ≡ pk'
  Names-unique s pk pk' h k = ground arith

  -- Two spellings of one key share the transport's key.
  pub hex-parse_path :
      (r s : Text) (p q : ParsedPath) (pk : PublicKey)
      → parse_path r ≡ ok p
      → parse_path s ≡ ok q
      → Names (trim r) pk
      → Names (trim s) pk
      → p.hex ≡ q.hex
  hex-parse_path r s p q pk h k n m =
      let (pk1, n1, e1) = parse_path-Names r p h in
      let (pk2, n2, e2) = parse_path-Names s q k in
      e1
      ∙ ap to_hex (Names-unique (trim r) pk1 pk n1 n)
      ∙ ap to_hex (Names-unique (trim s) pk pk2 m n2)
      ∙ sym e2
