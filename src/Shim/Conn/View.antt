-- ===== src/Shim/Conn/View.antt =====
-- The abstract view of a connection (crates/outlay-shim/src/conn.rs): at most one task for each
-- subscription id, as a function; NIP-01 has REQ replace and CLOSE end the subscription that it names.
use outlay.Base.{
  ℕ, false, Option, some, none, List, [], ◌∷◌, ◌++◌, ◌≡◌, refl, ◌∙◌, inl, inr, arith, Bool-cases,
  if◌then◌else◌,
}
use outlay.Base.Text.{Text, codes, ◌==◌, ==_iff}
use outlay.Json.{Json}
use outlay.Shim.Translate.{ClientMsg, req, close, publish, notice_frame}
use outlay.Shim.Conn.{
  Subs, remove, insert, Conn, Effect, spawn_subscribe, spawn_publish, send, cancel_some, on_msg,
}
use outlay.Shim.Conn.Subs.{Absent, Distinct, remove-Absent}
use outlay.Shim.Conn.Tasks.{IsValid}

abbrev pub find : Text → Subs → Option ℕ
find j [] = none
find j ((k, n) ∷ m) = if k == j then some n else find j m

find_of_Absent : (j : Text) (m : Subs) → Absent j m → find j m ≡ none
find_of_Absent j [] h = refl
find_of_Absent j ((k, n) ∷ m) (p, h) = rw p (find_of_Absent j m h)

remove-find : (k : Text) (m : Subs) → (remove k m).0 ≡ find k m
unfolding remove
remove-find k [] = refl
remove-find k ((j, n) ∷ m) = ground (arith, remove-find k m)

find-remove_ne : (k j : Text) (m : Subs) → (k == j) ≡ false → find j (remove k m).1 ≡ find j m
unfolding remove
find-remove_ne k j [] h = refl
find-remove_ne k j ((i, n) ∷ m) h =
    ground (arith, find-remove_ne k j m h, ==_iff i k, ==_iff i j, ==_iff k j)

find-remove :
    (k j : Text) (m : Subs)
    → Distinct m
    → find j (remove k m).1 ≡ (if k == j then none else find j m)
find-remove k j m d = elim (Bool-cases (k == j)) [
  | inl e ↦ rw e (rw (← (==_iff k j).0 e) (find_of_Absent k _ (remove-Absent k m d)))
  | inr n ↦ rw n (find-remove_ne k j m n)
]

find-insert :
    (k j : Text) (n : ℕ) (m : Subs) → find j (insert k n m) ≡ (if k == j then some n else find j m)
unfolding insert
find-insert k j n [] = refl
find-insert k j n ((i, a) ∷ m) =
    ground (arith, find-insert k j n m, ==_iff i k, ==_iff i j, ==_iff k j)

find-replace :
    (k j : Text) (n : ℕ) (m : Subs)
    → find j (insert k n (remove k m).1) ≡ (if k == j then some n else find j m)
find-replace k j n m =
    find-insert k j n (remove k m).1
    ∙ elim (Bool-cases (k == j)) [ inl e ↦ rw e | inr o ↦ rw o (find-remove_ne k j m o) ]

abbrev pub View : Type 0
View = Text → Option ℕ

module _ (J : Json) where
  -- What NIP-01 asks of a frame, on the view.
  abbrev pub view_after : View → ℕ → Option (ClientMsg J) → View
  view_after v next (some (req sub_id filters)) = λ j. if sub_id == j then some next else v j
  view_after v next (some (close sub_id)) = λ j. if sub_id == j then none else v j
  view_after v next (some (publish event)) = v
  view_after v next none = v

  abbrev pub effects_of : View → ℕ → Option (ClientMsg J) → List (Effect J)
  effects_of v next (some (req sub_id filters)) =
      cancel_some J (v sub_id) ++ spawn_subscribe next sub_id filters ∷ []
  effects_of v next (some (close sub_id)) = cancel_some J (v sub_id)
  effects_of v next (some (publish event)) = spawn_publish event ∷ []
  effects_of v next none = send (notice_frame J (codes "unrecognized frame")) ∷ []

  -- Each frame does what NIP-01 asks: a REQ under a live id cancels its task before it starts the
  -- new one in its place, a CLOSE cancels the task that it names and no other, and no frame touches
  -- the other subscriptions.
  pub on_msg_refines :
      (c : Conn) (m : Option (ClientMsg J))
      → IsValid J c
      → ((j : Text) → find j (on_msg J c m).0.subs ≡ view_after (λ k. find k c.subs) c.next m j)
        × ((on_msg J c m).1 ≡ effects_of (λ k. find k c.subs) c.next m)
  unfolding on_msg
  on_msg_refines c (some (req sub_id filters)) v =
      (λ j. find-replace sub_id j c.next c.subs, rw (remove-find sub_id c.subs))
  on_msg_refines c (some (close sub_id)) v =
      (λ j. find-remove sub_id j c.subs v.distinct, rw (remove-find sub_id c.subs))
  on_msg_refines c (some (publish event)) v = (λ j. refl, refl)
  on_msg_refines c none v = (λ j. refl, refl)
