-- ===== src/Proxy/Origin.antt =====
-- `nip11_origin` of crates/outlay/src/proxy.rs: where the upstream's NIP-11 document is.
use outlay.Base.{
  Bool, true, false, Option, some, none, ◌++◌, ◌≡◌, ◌↔◌, refl, ap, sym, ◌∙◌, inl, inr, arith,
  Option-cases, if◌then◌else◌, first,
}
use outlay.Base.Opt.{◌>>=◌, >>=-eq-some}
use mathlib.Core.Option.{some-injective}
use outlay.Base.Text.{
  Text, codes, strip_prefix, split, before, first-split, before-append, before-rest, Lacks, IsTail,
  strip_prefix-eq-some,
}

-- The scheme to use, and the URL without its own.
unfoldable pub schemes : Text → Option (Text × Text)
schemes upstream = elim (strip_prefix (codes "wss://") upstream) [
  | some h ↦ some (codes "https://", h)
  | none ↦ do h ← strip_prefix (codes "ws://") upstream; some (codes "http://", h)
]

unfoldable pub nip11_origin : Text → Option Text
unfolding schemes
nip11_origin upstream = do
  (scheme, rest) ← schemes upstream
  authority ← first (split b'/' rest)
  some (scheme ++ authority)

abbrev pub ws_scheme : Bool → Text
ws_scheme secure = if secure then codes "wss://" else codes "ws://"

abbrev pub http_scheme : Bool → Text
http_scheme secure = if secure then codes "https://" else codes "http://"

schemes-ws_scheme :
    (secure : Bool) (rest : Text)
    → schemes (ws_scheme secure ++ rest) ≡ some (http_scheme secure, rest)
unfolding schemes strip_prefix
schemes-ws_scheme true rest = refl
schemes-ws_scheme false rest = refl

schemes-eq-some :
    (url scheme rest : Text)
    → schemes url ≡ some (scheme, rest)
    → (secure : Bool) × (url ≡ ws_scheme secure ++ rest) × (scheme ≡ http_scheme secure)
unfolding schemes
schemes-eq-some url scheme rest h = elim (Option-cases (strip_prefix (codes "wss://") url)) [
  | inr (r, e) ↦ (true, ground (arith, strip_prefix-eq-some (codes "wss://") url r), ground arith)
  | inl e ↦ elim (Option-cases (strip_prefix (codes "ws://") url)) [
    | inr (r, f) ↦ (false, ground (arith, strip_prefix-eq-some (codes "ws://") url r), ground arith)
    | inl f ↦ absurd (ground arith)
  ]
]

pub nip11_origin_lem :
    (secure : Bool) (authority tail : Text)
    → Lacks b'/' authority
    → IsTail b'/' tail
    → nip11_origin (ws_scheme secure ++ (authority ++ tail))
      ≡ some (http_scheme secure ++ authority)
unfolding nip11_origin
nip11_origin_lem secure authority tail h k = rw (
  nip11_origin,
  schemes-ws_scheme secure (authority ++ tail),
  first-split b'/' (authority ++ tail),
  before-append b'/' authority tail h k,
)

abbrev pub IsOrigin : Text → Text → Type 0
IsOrigin url origin =
    (secure : Bool) × (authority : Text) × (tail : Text) × (url
      ≡ ws_scheme secure ++ (authority ++ tail))
    × Lacks b'/' authority
    × IsTail b'/' tail
    × (origin ≡ http_scheme secure ++ authority)

nip11_origin-IsOrigin : (url origin : Text) → nip11_origin url ≡ some origin → IsOrigin url origin
unfolding nip11_origin
nip11_origin-IsOrigin url origin e =
    let (p, found, q) = >>=-eq-some (schemes url) _ e in
    let (secure, u, s) = schemes-eq-some url p.0 p.1 found in
    let (tail, split_at, h, k) = before-rest b'/' p.1 in
    let o : some (p.0 ++ before b'/' p.1) ≡ some origin = rw (first-split b'/' p.1) at q in
    (
      secure,
      before b'/' p.1,
      tail,
      u ∙ ap (λ r. ws_scheme secure ++ r) split_at,
      h,
      k,
      sym (some-injective _ _ o) ∙ ap (λ r. r ++ before b'/' p.1) s,
    )

-- `nip11_origin` is defined exactly on the URLs with a WebSocket scheme; it replaces the scheme by
-- its HTTP counterpart, keeps the authority and drops the rest from the first slash on.
pub nip11_origin_iff : (url origin : Text) → (nip11_origin url ≡ some origin) ↔ IsOrigin url origin
nip11_origin_iff url origin = (
  nip11_origin-IsOrigin url origin,
  λ (secure, authority, tail, u, h, k, o).
      ap nip11_origin u ∙ nip11_origin_lem secure authority tail h k ∙ ap some (sym o),
)
