-- ===== src/Shim/Conn/Tasks.antt =====
-- The tasks of one connection (crates/outlay-shim/src/conn.rs): each is spawned once, under the id
-- that the client chose, and cancelled exactly once.
use outlay.Base.{
  ℕ, suc, ◌+◌, ◌≤◌, ◌<◌, Option, some, none, List, [], ◌∷◌, ◌++◌, ◌≡◌, ◌⊎◌, refl, inl, arith, eqb,
}
use outlay.Json.{Json}
use outlay.Shim.Translate.{ClientMsg, req, close, publish, parse_client_frame}
use outlay.Shim.Conn.{
  Subs, remove, Conn, Inbound, text, closed, failed, ignored, Effect, cancel, spawn_subscribe,
  cancel_some, on_msg, cancel_all, serve, handle_frames,
}
use outlay.Shim.Conn.Subs.{
  one_if, live, live_some, Distinct, Below, live-remove, remove-Absent, remove-Distinct,
  remove-Below, live-insert, insert-Distinct, insert-Below,
}

module _ (J : Json) where
  abbrev pub spawns : ℕ → Effect J → ℕ
  spawns n (spawn_subscribe i sub_id filters) = one_if (eqb i n)
  spawns n e = 0

  abbrev pub cancels : ℕ → Effect J → ℕ
  cancels n (cancel i) = one_if (eqb i n)
  cancels n e = 0

  abbrev pub total : (Effect J → ℕ) → List (Effect J) → ℕ
  total f [] = 0
  total f (e ∷ es) = f e + total f es

  pub total-append :
      (f : Effect J → ℕ) (xs ys : List (Effect J)) → total f (xs ++ ys) ≡ total f xs + total f ys
  total-append f [] ys = omega arith
  total-append f (x ∷ xs) ys = omega (arith, total-append f xs ys)

  pub total-cancel_all :
      (n : ℕ) (m : Subs)
      → (total (cancels n) (cancel_all J m) ≡ live n m) × (total (spawns n) (cancel_all J m) ≡ 0)
  unfolding cancel_all
  total-cancel_all n [] = (refl, refl)
  total-cancel_all n ((k, i) ∷ m) = omega (arith, total-cancel_all n m)

  pub total-cancel_some :
      (n : ℕ) (o : Option ℕ)
      → (total (cancels n) (cancel_some J o) ≡ live_some n o)
        × (total (spawns n) (cancel_some J o) ≡ 0)
  total-cancel_some n none = (refl, refl)
  total-cancel_some n (some i) = omega arith

  ruleset totals = (arith, total-append, total-cancel_all, total-cancel_some)

  -- One task for each key, each below the counter.
  pub record IsValid (c : Conn) : Type 0 where
    pub distinct : Distinct c.subs
    pub below : Below c.next c.subs

  Below-suc : (b : ℕ) (m : Subs) → Below b m → Below (suc b) m
  Below-suc b [] h = tt
  Below-suc b ((k, i) ∷ m) (p, h) = (omega arith, Below-suc b m h)

  pub on_msg-IsValid : (c : Conn) (m : Option (ClientMsg J)) → IsValid c → IsValid (on_msg J c m).0
  unfolding on_msg
  on_msg-IsValid c (some (req sub_id filters)) v = record {
    distinct =
        insert-Distinct sub_id c.next _ (remove-Absent sub_id c.subs v.distinct)
          (remove-Distinct sub_id c.subs v.distinct);
    below =
        insert-Below (suc c.next) sub_id c.next _ (omega arith)
          (Below-suc c.next _ (remove-Below c.next sub_id c.subs v.below));
  }
  on_msg-IsValid c (some (close sub_id)) v = record {
    distinct = remove-Distinct sub_id c.subs v.distinct;
    below = remove-Below c.next sub_id c.subs v.below;
  }
  on_msg-IsValid c (some (publish event)) v = v
  on_msg-IsValid c none v = v

  -- What a frame spawns and what was live is what it cancels and what is live after it.
  pub on_msg_balance :
      (n : ℕ) (c : Conn) (m : Option (ClientMsg J))
      → IsValid c
      → total (spawns n) (on_msg J c m).1 + live n c.subs
        ≡ total (cancels n) (on_msg J c m).1 + live n (on_msg J c m).0.subs
  unfolding on_msg
  on_msg_balance n c (some (req sub_id filters)) v = omega (
    arith,
    total-append (spawns n) (cancel_some J (remove sub_id c.subs).0) _,
    total-append (cancels n) (cancel_some J (remove sub_id c.subs).0) _,
    total-cancel_some n (remove sub_id c.subs).0,
    live-remove n sub_id c.subs,
    live-insert n c.next sub_id (remove sub_id c.subs).1 (remove-Absent sub_id c.subs v.distinct),
  )
  on_msg_balance n c (some (close sub_id)) v =
      omega (arith, live-remove n sub_id c.subs, total-cancel_some n (remove sub_id c.subs).0)
  on_msg_balance n c (some (publish event)) v = omega arith
  on_msg_balance n c none v = omega arith

  serve_balance :
      (n : ℕ) (c : Conn) (frames : List Inbound)
      → IsValid c
      → total (spawns n) (serve J c frames) + live n c.subs ≡ total (cancels n) (serve J c frames)
  unfolding serve
  serve_balance n c [] v = grind totals
  serve_balance n c (closed ∷ frames) v = grind totals
  serve_balance n c (failed ∷ frames) v = grind totals
  serve_balance n c (ignored ∷ frames) v = serve_balance n c frames v
  serve_balance n c (text t ∷ frames) v =
      let r = on_msg J c (parse_client_frame J t) in
      omega (
        arith,
        total-append (spawns n) r.1 (serve J r.0 frames),
        total-append (cancels n) r.1 (serve J r.0 frames),
        on_msg_balance n c (parse_client_frame J t) v,
        serve_balance n r.0 frames (on_msg-IsValid c (parse_client_frame J t) v),
      )

  -- A frame spawns at most the task with the number that the counter shows.
  pub on_msg_fresh :
      (n : ℕ) (c : Conn) (m : Option (ClientMsg J))
      → (c.next ≤ (on_msg J c m).0.next)
        × ((total (spawns n) (on_msg J c m).1 ≡ 0)
            ⊎ ((total (spawns n) (on_msg J c m).1 ≡ 1)
                × (n ≡ c.next)
                × ((on_msg J c m).0.next ≡ suc c.next)))
  unfolding on_msg
  on_msg_fresh n c (some (req sub_id filters)) = ground (
    arith,
    total-append (spawns n) (cancel_some J (remove sub_id c.subs).0)
        (spawn_subscribe c.next sub_id filters ∷ []),
    total-cancel_some n (remove sub_id c.subs).0,
  )
  on_msg_fresh n c (some (close sub_id)) = (omega arith, inl (total-cancel_some n _).1)
  on_msg_fresh n c (some (publish event)) = (omega arith, inl refl)
  on_msg_fresh n c none = (omega arith, inl refl)

  cleanup_fresh :
      (n next : ℕ) (m : Subs)
      → (total (spawns n) (cancel_all J m) ≤ 1) × (n < next → total (spawns n) (cancel_all J m) ≡ 0)
  cleanup_fresh n next m = ground (arith, total-cancel_all n m)

  serve_fresh :
      (n : ℕ) (c : Conn) (frames : List Inbound)
      → (total (spawns n) (serve J c frames) ≤ 1)
        × (n < c.next → total (spawns n) (serve J c frames) ≡ 0)
  unfolding serve
  serve_fresh n c [] = cleanup_fresh n c.next c.subs
  serve_fresh n c (closed ∷ frames) = cleanup_fresh n c.next c.subs
  serve_fresh n c (failed ∷ frames) = cleanup_fresh n c.next c.subs
  serve_fresh n c (ignored ∷ frames) = serve_fresh n c frames
  serve_fresh n c (text t ∷ frames) =
      let r = on_msg J c (parse_client_frame J t) in
      ground (
        arith,
        total-append (spawns n) r.1 (serve J r.0 frames),
        on_msg_fresh n c (parse_client_frame J t),
        serve_fresh n r.0 frames,
      )

  -- Whatever a client sends and however its connection ends, every subscription task is started
  -- once and its cancel signal fires exactly once.
  pub handle_frames_balanced :
      (frames : List Inbound) (n : ℕ)
      → (total (cancels n) (handle_frames J frames) ≡ total (spawns n) (handle_frames J frames))
        × (total (spawns n) (handle_frames J frames) ≤ 1)
  unfolding handle_frames
  handle_frames_balanced frames n = (
    omega (arith, serve_balance n start frames (record { distinct = tt; below = tt })),
    (serve_fresh n start frames).0,
  )
    where
      start : Conn
      start = record { subs = []; next = 0 }
