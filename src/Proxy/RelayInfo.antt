-- ===== src/Proxy/RelayInfo.antt =====
-- What `Proxy::relay_info` (crates/outlay/src/proxy.rs) answers, whatever the upstream serves.
use outlay.Base.{
  ◌⊎◌, Bool, true, false, Option, some, none, ◌≡◌, refl, inl, inr, arith, Option-cases,
}
use outlay.Base.Res.{ok}
use outlay.Base.Text.{Text}
use outlay.Json.{Json}
use outlay.Json.Laws.{HasMaps}
use outlay.Proxy.Origin.{nip11_origin}
use outlay.Proxy.Info.{
  synthesized_map, synthesized_proxy_info, Response, body_document, document, run_relay_info,
}
use outlay.Proxy.Overlay.{IsStamped, IsOverlay, overlay_proxy_info-IsOverlay, synthesized-IsStamped}

module _ (J : Json) (version : Text) (L : HasMaps J) where
  open J use {Value, Map, object, as_object}

  -- What an answer asks of the document: the overlay of the upstream's own where the answer was a
  -- success with a JSON object, and outlay's alone otherwise.
  abbrev pub IsAnswer : Bool → Option Value → Map → Type 0
  IsAnswer true (some doc) out =
      ((m : Map) × (as_object doc ≡ some m) × IsOverlay J version m out)
      ⊎ ((as_object doc ≡ none) × IsStamped J version out)
  IsAnswer _ _ out = IsStamped J version out

  body_document-IsAnswer :
      (is_success : Bool) (json : Option Value)
      → (out : Map) × (body_document J version is_success json ≡ some (object out))
        × IsAnswer is_success json out
  unfolding body_document synthesized_proxy_info
  body_document-IsAnswer true (some doc) = elim (Option-cases (as_object doc)) [
    | inl n ↦ (synthesized_map J version, ground arith, inr (n, synthesized-IsStamped J version L))
    | inr (m, e) ↦
        let (out, same, overlay) = overlay_proxy_info-IsOverlay J version L doc m e in
        (out, ground arith, inl (m, e, overlay))
  ]
  body_document-IsAnswer true none =
      (synthesized_map J version, refl, synthesized-IsStamped J version L)
  body_document-IsAnswer false json =
      (synthesized_map J version, refl, synthesized-IsStamped J version L)

  abbrev pub AnswersTo : Option (Response J) → Map → Type 0
  AnswersTo none out = IsStamped J version out
  AnswersTo (some resp) out = IsAnswer resp.is_success resp.json out

  document-AnswersTo :
      (resp : Option (Response J))
      → (out : Map) × (document J version resp ≡ some (object out)) × AnswersTo resp out
  unfolding document synthesized_proxy_info
  document-AnswersTo none = (synthesized_map J version, refl, synthesized-IsStamped J version L)
  document-AnswersTo (some resp) = body_document-IsAnswer resp.is_success resp.json

  -- For an upstream with a WebSocket URL `relay_info` always answers, with a document under
  -- outlay's identity: the overlay of the upstream's own document when the request succeeded with a
  -- JSON object, and never a panic, whatever came back.
  pub run_relay_info-AnswersTo :
      (url origin : Text) (get : Text → Option (Response J))
      → nip11_origin url ≡ some origin
      → (out : Map) × (run_relay_info J version url get ≡ some (ok (object out)))
        × AnswersTo (get origin) out
  unfolding run_relay_info
  run_relay_info-AnswersTo url origin get h =
      let (out, e, a) = document-AnswersTo (get origin) in (out, rw (h, run_relay_info, e), a)
