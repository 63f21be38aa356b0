-- ===== src/Shim/Frames.antt =====
-- What `parse_client_frame` (crates/outlay-shim/src/translate.rs) accepts.
use outlay.Base.{some, List, [], ◌∷◌, ◌≡◌, ◌↔◌, refl, arith, first}
use outlay.Base.Opt.{◌>>=◌, >>=-eq-some}
use outlay.Base.Text.{Text, codes, ◌==◌, ==_iff}
use outlay.Json.{Json}
use outlay.Shim.Translate.{ClientMsg, req, close, publish, client_msg, parse_client_frame}

module _ (J : Json) where
  open J use {Value, as_str, parse_array}

  -- The arrays that are taken for a client's message: the tag, the parts, and for all but REQ anything
  -- behind them.
  abbrev pub Denotes : ClientMsg J → List Value → Type 0
  Denotes (req sub_id filters) arr =
      (k : Value) × (s : Value) × (arr ≡ k ∷ s ∷ filters)
      × (as_str k ≡ some (codes "REQ"))
      × (as_str s ≡ some sub_id)
  Denotes (close sub_id) arr =
      (k : Value) × (s : Value) × (rest : List Value) × (arr ≡ k ∷ s ∷ rest)
      × (as_str k ≡ some (codes "CLOSE"))
      × (as_str s ≡ some sub_id)
  Denotes (publish event) arr =
      (k : Value) × (rest : List Value) × (arr ≡ k ∷ event ∷ rest)
      × (as_str k ≡ some (codes "EVENT"))

  client_msg-Denotes :
      (kind : Text) (arr : List Value) (m : ClientMsg J)
      → (first arr >>= as_str) ≡ some kind
      → client_msg J kind arr ≡ some m
      → Denotes m arr
  unfolding client_msg
  client_msg-Denotes kind [] m h e = cc
  client_msg-Denotes kind (k ∷ []) m h e = absurd (ground arith)
  client_msg-Denotes kind (k ∷ s ∷ rest) (req sub_id filters) h e =
      (k, s, ground arith, ground (arith, ==_iff kind (codes "REQ")), ground arith)
  client_msg-Denotes kind (k ∷ s ∷ rest) (close sub_id) h e =
      (k, s, rest, refl, ground (arith, ==_iff kind (codes "CLOSE")), ground arith)
  client_msg-Denotes kind (k ∷ s ∷ rest) (publish event) h e =
      (k, rest, ground arith, ground (arith, ==_iff kind (codes "EVENT")))

  client_msg_of_Denotes :
      (arr : List Value) (m : ClientMsg J)
      → Denotes m arr
      → (kind : Text) × ((first arr >>= as_str) ≡ some kind) × (client_msg J kind arr ≡ some m)
  unfolding client_msg ◌==◌
  client_msg_of_Denotes arr (req sub_id filters) (k, s, e, t, h) =
      (codes "REQ", rw (e, t), rw (e, h))
  client_msg_of_Denotes arr (close sub_id) (k, s, rest, e, t, h) =
      (codes "CLOSE", rw (e, t), rw (e, h))
  client_msg_of_Denotes arr (publish event) (k, rest, e, t) = (codes "EVENT", rw (e, t), rw e)

  -- A frame is read as a message exactly when its text is a JSON array that begins with the tag of
  -- the message and goes on with its parts: for REQ the subscription id and then all the filters, for
  -- CLOSE the id, for EVENT the event. A REQ has nothing behind its filters; what stands behind the id
  -- of a CLOSE or the event of an EVENT is not looked at, nor is any filter or event.
  pub parse_client_frame_iff :
      (text : Text) (m : ClientMsg J)
      → (parse_client_frame J text ≡ some m)
        ↔ ((arr : List Value) × (parse_array text ≡ some arr) × Denotes m arr)
  unfolding parse_client_frame
  parse_client_frame_iff text m = (
    λ h.
        let (arr, e, rest) = >>=-eq-some (parse_array text) _ h in
        let (kind, f, g) = >>=-eq-some (first arr >>= as_str) _ rest in
        (arr, e, client_msg-Denotes kind arr m f g),
    λ (arr, e, d). let (kind, f, g) = client_msg_of_Denotes arr m d in rw (e, f) g,
  )
