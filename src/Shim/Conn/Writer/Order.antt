-- ===== src/Shim/Conn/Writer/Order.antt =====
-- The writer task of crates/outlay-shim/src/conn.rs: what reaches the client, and in which order.
use outlay.Base.{
  ℕ, ◌≤◌, List, [], ◌∷◌, ◌++◌, ◌≡◌, ◌≢◌, inl, inr, refl, ap, sym, ◌∙◌, arith, length, length-append,
  update, update-cases, eqb, eqb_iff, if◌then◌else◌, append_assoc, append-nil, Bool-cases,
}
use outlay.Base.Text.{Text}
use outlay.Shim.Conn.Writer.{
  outbound_buf, is_gone, Sender, sending, dropped, todo, running, finished, Channel, Step, send,
  refused_on, refused_return, drop, write, fail, close, finish, Reach, start, later,
}

-- The frames of one sender, in order.
abbrev pub from : ℕ → List (ℕ × Text) → List Text
from i [] = []
from i ((j, frame) ∷ ms) = if eqb j i then frame ∷ from i ms else from i ms

from-append : (i : ℕ) (ms ns : List (ℕ × Text)) → from i (ms ++ ns) ≡ from i ms ++ from i ns
from-append i [] ns = refl
from-append i ((j, frame) ∷ ms) ns = elim (Bool-cases (eqb j i)) [
  | inl e ↦ rw (e, from-append i ms ns)
  | inr e ↦ rw (e, from-append i ms ns)
]

-- What the client has seen of a sender, as far as its frames are not under way.
pub record IsOrdered (senders : ℕ → Sender) (c : Channel) : Type 0 where
  pub bounded : length c.queue ≤ outbound_buf
  pub prefix : (i : ℕ) → (rest : List Text) × (from i c.wire ++ rest ≡ todo (senders i))
  pub flow :
      c.writer ≡ running
      → (i : ℕ) → from i c.wire ++ (from i c.queue ++ todo (c.senders i)) ≡ todo (senders i)
  pub whole : c.writer ≡ finished → (i : ℕ) → from i c.wire ≡ todo (senders i)

from_self : (i j : ℕ) (frame : Text) → j ≡ i → from j ((i, frame) ∷ []) ≡ frame ∷ []
from_self i j frame e = rw ((eqb_iff i j).1 (sym e))

from_other : (i j : ℕ) (frame : Text) → j ≢ i → from j ((i, frame) ∷ []) ≡ []
from_other i j frame ne = elim (Bool-cases (eqb i j)) [
  | inl e ↦ absurd (ne (sym ((eqb_iff i j).0 e)))
  | inr e ↦ rw e
]

-- A frame that goes into the channel leaves its sender.
send_flow :
    (i j : ℕ) (frame : Text) (frames : List Text) (c : Channel)
    → c.senders i ≡ sending (frame ∷ frames)
    → from j (c.queue ++ (i, frame) ∷ []) ++ todo (update c.senders i (sending frames) j)
      ≡ from j c.queue ++ todo (c.senders j)
send_flow i j frame frames c h = elim (update-cases c.senders i (sending frames) j) [
  | inl (e, u) ↦
      rw (u, e, h, from-append i c.queue ((i, frame) ∷ []), from_self i i frame refl)
        (append_assoc (from i c.queue) (frame ∷ []) frames)
  | inr (e, u) ↦
      rw (u, from-append j c.queue ((i, frame) ∷ []), from_other i j frame e)
        (append_assoc (from j c.queue) [] (todo (c.senders j)))
]

-- A frame that is written leaves the channel.
write_flow :
    (i : ℕ) (m : ℕ × Text) (wire queue : List (ℕ × Text)) (rest : List Text)
    → from i (wire ++ m ∷ []) ++ (from i queue ++ rest)
      ≡ from i wire ++ (from i (m ∷ queue) ++ rest)
write_flow i m wire queue rest =
    rw (from-append i wire (m ∷ []), from-append i (m ∷ []) queue)
      (append_assoc (from i wire) (from i (m ∷ [])) (from i queue ++ rest)
        ∙ ap (◌++◌ (from i wire)) (sym (append_assoc (from i (m ∷ [])) (from i queue) rest)))

drop_flow :
    (i j : ℕ) (c : Channel)
    → c.senders i ≡ sending []
    → todo (update c.senders i dropped j) ≡ todo (c.senders j)
drop_flow i j c h = elim (update-cases c.senders i dropped j) [
  | inl (e, u) ↦ rw (u, e, h)
  | inr (e, u) ↦ rw u
]

Step-IsOrdered :
    (senders : ℕ → Sender) {b c : Channel} → Step b c → IsOrdered senders b → IsOrdered senders c
Step-IsOrdered senders {b} (send i frame frames w h lt) o = record {
  bounded = omega (arith, lt, length-append b.queue ((i, frame) ∷ []));
  prefix = o.prefix;
  flow = λ r j. ap (◌++◌ (from j b.wire)) (send_flow i j frame frames b h) ∙ o.flow r j;
  whole = λ r. absurd (cc (w, ap is_gone r));
}
Step-IsOrdered senders (refused_on i frame frames w h) o = record {
  bounded = o.bounded;
  prefix = o.prefix;
  flow = λ r. absurd (cc (w, ap is_gone r));
  whole = o.whole;
}
Step-IsOrdered senders (refused_return i frame frames w h) o = record {
  bounded = o.bounded;
  prefix = o.prefix;
  flow = λ r. absurd (cc (w, ap is_gone r));
  whole = o.whole;
}
Step-IsOrdered senders {b} (drop i h) o = record {
  bounded = o.bounded;
  prefix = o.prefix;
  flow = λ r j. ap (λ t. from j b.wire ++ (from j b.queue ++ t)) (drop_flow i j b h) ∙ o.flow r j;
  whole = o.whole;
}
Step-IsOrdered senders {b} (write m queue w h) o =
    let flow : (i : ℕ)
        → from i (b.wire ++ m ∷ []) ++ (from i queue ++ todo (b.senders i)) ≡ todo (senders i) =
      λ i.
        write_flow i m b.wire queue (todo (b.senders i))
        ∙ ap (λ q. from i b.wire ++ (from i q ++ todo (b.senders i))) (sym h)
        ∙ o.flow w i in
    record {
      bounded = omega (arith, o.bounded, ap length h);
      prefix = λ i. (from i queue ++ todo (b.senders i), flow i);
      flow = λ r. flow;
      whole = λ r. cc;
    }
Step-IsOrdered senders (fail m queue w h) o = record {
  bounded = omega (arith, o.bounded, ap length h);
  prefix = o.prefix;
  flow = λ r. cc;
  whole = λ r. cc;
}
Step-IsOrdered senders (close w) o = record {
  bounded = omega arith;
  prefix = o.prefix;
  flow = λ r. cc;
  whole = λ r. cc;
}
Step-IsOrdered senders {b} (finish w h d) o = record {
  bounded = o.bounded;
  prefix = o.prefix;
  flow = λ r. cc;
  whole = λ r i. sym (append-nil (from i b.wire)) ∙ sym (rw (h, d i)) ∙ o.flow w i;
}

-- Never more than 256 frames are under way. At any time the client has a prefix of what each sender
-- sends, in its order and without a frame twice or left out; once the writer ends because every
-- sender is done, it has all that each of them sent.
pub Reach-IsOrdered : (senders : ℕ → Sender) {c : Channel} → Reach senders c → IsOrdered senders c
Reach-IsOrdered senders start = record {
  bounded = omega arith;
  prefix = λ i. (todo (senders i), refl);
  flow = λ r i. refl;
  whole = λ r. cc;
}
Reach-IsOrdered senders (later r s) = Step-IsOrdered senders s (Reach-IsOrdered senders r)
