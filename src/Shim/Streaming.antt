-- ===== src/Shim/Streaming.antt =====
-- A subscription from a vanilla client through the shim to the upstream and back:
-- `subscribe_loop` of crates/outlay-shim/src/conn.rs, `args` of transport.rs, and the `subscribe` tool
-- of crates/outlay/src/handler.rs with its parameters.
pub mod Calls
pub mod Delivery
pub mod OnWire
use outlay.Base.{Option, some, none, List, [], ◌∷◌, ◌++◌, ◌≡◌, true, map}
use outlay.Base.Opt.{◌>>=◌}
use outlay.Base.Text.{Text, codes}
use outlay.Handler.{ErrorData, Upstream, Reply, subscribe_tool}
use outlay.Json.{Json}
use outlay.Nostr.{Nostr}
use outlay.Proxy.Subscribe.{Call, subscribe_with_id, start, write, unsubscribe, close}
use outlay.Shim.Args.{args}
use outlay.Shim.Conn.Loop.{Round, chunk, ended}

-- The CEP-41 stream belongs to `contextvm_sdk`: `carry` is what the caller's stream brings for the
-- calls that outlay makes on its writer. It is a stream of chunks, in order, that ends where the
-- writer closes it.
pub record IsStream {F : Type 0} (carry : List (Call F) → List Round) : Type 0 where
  pub carry-nil : carry [] ≡ []
  pub carry-write :
      (c : Text) (calls : List (Call F)) → carry (write c ∷ calls) ≡ chunk c true ∷ carry calls
  pub carry-close : (calls : List (Call F)) → carry (close ∷ calls) ≡ ended ∷ carry calls
  pub carry-start : (calls : List (Call F)) → carry (start ∷ calls) ≡ carry calls
  -- the calls on the upstream pool
  pub carry-subscribe :
      (id : Text) (fs : List F) (calls : List (Call F))
      → carry (subscribe_with_id id fs ∷ calls) ≡ carry calls
  pub carry-unsubscribe :
      (id : Text) (calls : List (Call F)) → carry (unsubscribe id ∷ calls) ≡ carry calls

module _ (J : Json) where
  open J use {Value, Map, string, array, object, as_str, as_array, as_object, empty, insert, find}

  -- The arguments of the shim's call.
  unfoldable pub subscribe_arguments : Text → List Value → Map
  unfolding args
  subscribe_arguments sub_id filters = args J (
      object (
        insert (codes "filters") (array filters)
          (insert (codes "subscription_id") (string sub_id) empty)))

  -- `SubscribeParams`, as serde reads it: none where a field is missing or of another type.
  pub record SubscribeParams : Type 0 where
    pub subscription_id : Text
    pub filters : List Value

  unfoldable pub subscribe_params : Map → Option SubscribeParams
  subscribe_params m = do
    subscription_id ← find (codes "subscription_id") m >>= as_str
    filters ← find (codes "filters") m >>= as_array
    some (record { subscription_id = subscription_id; filters = filters })

  module _ (N : Nostr J) where
    open N use {Filter}

    abbrev pub serve_params : Upstream J N → Option SubscribeParams → List (Call Filter)
    serve_params up none = []
    serve_params up (some p) = (subscribe_tool J N true p.subscription_id p.filters up).0

    -- The calls of outlay for the arguments of one call.
    abbrev pub serve_subscribe : Upstream J N → Map → List (Call Filter)
    serve_subscribe up m = serve_params up (subscribe_params m)
