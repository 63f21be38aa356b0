-- ===== src/Shim/Conn.antt =====
-- `handle_ws` of crates/outlay-shim/src/conn.rs, from the frame loop on: the map from subscription
-- ids to the tasks that own them, and the effects of each frame. A task is known by its number;
-- `cancel n` is `notify_one` on its signal. `HashMap` is the standard library's, over distinct keys.
pub mod Subs
pub mod Tasks
pub mod View
pub mod Loop
pub mod Cancel
pub mod Writer
use outlay.Base.{ℕ, suc, Option, some, none, List, [], ◌∷◌, ◌++◌, if◌then◌else◌}
use outlay.Base.Text.{Text, codes, ◌==◌}
use outlay.Json.{Json}
use outlay.Shim.Translate.{ClientMsg, req, close, publish, parse_client_frame, notice_frame}

-- `subs`, from subscription ids to tasks.
abbrev pub Subs : Type 0
Subs = List (Text × ℕ)

-- `HashMap::remove`: the value that was there, and the map without it.
unfoldable pub remove : Text → Subs → Option ℕ × Subs
remove k [] = (none, [])
remove k ((j, n) ∷ m) =
    let rest = remove k m in if j == k then (some n, m) else (rest.0, (j, n) ∷ rest.1)

-- `HashMap::insert` overwrites.
unfoldable pub insert : Text → ℕ → Subs → Subs
insert k n [] = (k, n) ∷ []
insert k n ((j, i) ∷ m) = if j == k then (k, n) ∷ m else (j, i) ∷ insert k n m

pub record Conn : Type 0 where
  pub subs : Subs
  -- the number of the next task
  pub next : ℕ

-- `stream.next()`: a text frame, a close frame, an error, or anything else.
pub data Inbound : Type 0 where
  text : Text → Inbound
  closed failed ignored : Inbound

pub data Effect (J : Json) : Type 0 where
  cancel : ℕ → Effect J
  spawn_subscribe : ℕ → Text → List J.Value → Effect J
  spawn_publish : J.Value → Effect J
  send : Text → Effect J

module _ (J : Json) where
  abbrev pub cancel_some : Option ℕ → List (Effect J)
  cancel_some none = []
  cancel_some (some n) = cancel n ∷ []

  -- The `match` on one parsed frame.
  unfoldable pub on_msg : Conn → Option (ClientMsg J) → Conn × List (Effect J)
  on_msg c (some (req sub_id filters)) =
      let removed = remove sub_id c.subs in
      (
        record { subs = insert sub_id c.next removed.1; next = suc c.next },
        cancel_some removed.0 ++ spawn_subscribe c.next sub_id filters ∷ [],
      )
  on_msg c (some (close sub_id)) =
      let removed = remove sub_id c.subs in (record c { subs = removed.1 }, cancel_some removed.0)
  on_msg c (some (publish event)) = (c, spawn_publish event ∷ [])
  on_msg c none = (c, send (notice_frame J (codes "unrecognized frame")) ∷ [])

  -- `for (cancel, _) in subs.values() { cancel.notify_one(); }`
  unfoldable pub cancel_all : Subs → List (Effect J)
  cancel_all [] = []
  cancel_all ((k, n) ∷ m) = cancel n ∷ cancel_all m

  -- The loop and the cleanup behind it, which every way out of the loop reaches.
  unfoldable pub serve : Conn → List Inbound → List (Effect J)
  unfolding on_msg cancel_all
  serve c [] = cancel_all c.subs
  serve c (closed ∷ frames) = cancel_all c.subs
  serve c (failed ∷ frames) = cancel_all c.subs
  serve c (ignored ∷ frames) = serve c frames
  serve c (text t ∷ frames) = let r = on_msg c (parse_client_frame J t) in r.1 ++ serve r.0 frames

  unfoldable pub handle_frames : List Inbound → List (Effect J)
  unfolding serve
  handle_frames frames = serve (record { subs = []; next = 0 }) frames
