-- ===== src/Shim/Conn/Writer/Ends.antt =====
-- The writer task of crates/outlay-shim/src/conn.rs: its channel is drained, and the workers and the
-- writer come to their ends.
use outlay.Base.{
  true, false, ℕ, zero, suc, ◌+◌, ◌*◌, ◌<◌, ◌≤◌, List, [], ◌∷◌, ◌≡◌, ◌⊎◌, inl, inr, refl, ap, ◌∙◌,
  arith, length, length-append, update, update-cases,
}
use outlay.Base.Text.{Text}
use outlay.Shim.Conn.Writer.{
  Sender, sending, dropped, Writer, running, closing, stopped, finished, is_gone, Channel, Step,
  send, refused_on, refused_return, drop, write, fail, close, finish, Reach, start, later,
}

-- What a sender has to do yet: two steps for a frame, one to end.
abbrev pub work : Sender → ℕ
work (sending frames) = suc (2 * length frames)
work dropped = 0

abbrev pub total : ℕ → (ℕ → Sender) → ℕ
total zero senders = 0
total (suc n) senders = work (senders n) + total n senders

abbrev pub writer_work : Writer → ℕ
writer_work running = 2
writer_work closing = 1
writer_work stopped = 0
writer_work finished = 0

-- For a connection of `n` senders.
abbrev pub measure : ℕ → Channel → ℕ
measure n c = total n c.senders + length c.queue + writer_work c.writer

-- Only `n` senders are there.
abbrev pub Within : ℕ → (ℕ → Sender) → Type 0
Within n senders = (i : ℕ) → n ≤ i → senders i ≡ dropped

total_beyond :
    (n i : ℕ) (p : Sender) (senders : ℕ → Sender)
    → n ≤ i
    → total n (update senders i p) ≡ total n senders
total_beyond zero i p senders h = refl
total_beyond (suc n) i p senders h = elim (update-cases senders i p n) [
  | inl (e, u) ↦ absurd (omega (arith, e, h))
  | inr (e, u) ↦ omega (arith, ap work u, total_beyond n i p senders (omega (arith, h)))
]

total-update :
    (n i : ℕ) (p : Sender) (senders : ℕ → Sender)
    → i < n
    → total n (update senders i p) + work (senders i) ≡ total n senders + work p
total-update zero i p senders h = absurd (omega (arith, h))
total-update (suc n) i p senders h = elim (update-cases senders i p n) [
  | inl (e, u) ↦ omega (
    arith,
    ap work u,
    ap (λ j. work (senders j)) e,
    total_beyond n i p senders (omega (arith, e)),
  )
  | inr (e, u) ↦ omega (arith, ap work u, total-update n i p senders (omega (arith, h, e)))
]

lt_or_le : (i n : ℕ) → (i < n) ⊎ (n ≤ i)
lt_or_le i n = ground arith

-- A sender that makes a step is one of the `n`.
stepped :
    (n i : ℕ) (p : Sender) (frames : List Text) (senders : ℕ → Sender)
    → Within n senders
    → senders i ≡ sending frames
    → Within n (update senders i p)
      × (total n (update senders i p) + suc (2 * length frames) ≡ total n senders + work p)
stepped n i p frames senders within h = elim (lt_or_le i n) [
  | inr le ↦ cc (within i le, h)
  | inl lt ↦ (
    λ j le. elim (update-cases senders i p j) [
      | inl (e, u) ↦ absurd (omega (arith, e, lt, le))
      | inr (e, u) ↦ u ∙ within j le
    ],
    omega (arith, total-update n i p senders lt, ap work h),
  )
]

pub Step-Within : (n : ℕ) {b c : Channel} → Step b c → Within n b.senders → Within n c.senders
Step-Within n {b} (send i frame frames w h lt) within =
    (stepped n i (sending frames) (frame ∷ frames) b.senders within h).0
Step-Within n {b} (refused_on i frame frames w h) within =
    (stepped n i (sending frames) (frame ∷ frames) b.senders within h).0
Step-Within n {b} (refused_return i frame frames w h) within =
    (stepped n i dropped (frame ∷ frames) b.senders within h).0
Step-Within n {b} (drop i h) within = (stepped n i dropped [] b.senders within h).0
Step-Within n (write m queue w h) within = within
Step-Within n (fail m queue w h) within = within
Step-Within n (close w) within = within
Step-Within n (finish w h d) within = within

Step-measure : (n : ℕ) {b c : Channel} → Step b c → Within n b.senders → measure n c < measure n b
Step-measure n {b} (send i frame frames w h lt) within = omega (
  arith,
  (stepped n i (sending frames) (frame ∷ frames) b.senders within h).1,
  length-append b.queue ((i, frame) ∷ []),
)
Step-measure n {b} (refused_on i frame frames w h) within =
    omega (arith, (stepped n i (sending frames) (frame ∷ frames) b.senders within h).1)
Step-measure n {b} (refused_return i frame frames w h) within =
    omega (arith, (stepped n i dropped (frame ∷ frames) b.senders within h).1)
Step-measure n {b} (drop i h) within = omega (arith, (stepped n i dropped [] b.senders within h).1)
Step-measure n (write m queue w h) within = omega (arith, ap length h)
Step-measure n (fail m queue w h) within = omega (arith, ap length h, ap writer_work w)
Step-measure n (close w) within = omega (arith, ap writer_work w)
Step-measure n (finish w h d) within = omega (arith, ap writer_work w)

-- The writer has ended and every sender is gone.
pub record IsDone (c : Channel) : Type 0 where
  pub ended : is_gone c.writer ≡ true
  pub alone : (i : ℕ) → c.senders i ≡ dropped

Sender-cases : (p : Sender) → (p ≡ dropped) ⊎ ((frames : List Text) × (p ≡ sending frames))
Sender-cases dropped = inl refl
Sender-cases (sending frames) = inr (frames, refl)

pub Writer-cases : (p : Writer) → (p ≡ running) ⊎ (p ≡ closing) ⊎ (is_gone p ≡ true)
Writer-cases running = inl refl
Writer-cases closing = inr (inl refl)
Writer-cases stopped = inr (inr refl)
Writer-cases finished = inr (inr refl)

-- A sender among the first `n`, or none.
someone :
    (n : ℕ) (senders : ℕ → Sender)
    → ((i : ℕ) × (frames : List Text) × (senders i ≡ sending frames))
      ⊎ ((i : ℕ) → i < n → senders i ≡ dropped)
someone zero senders = inr (λ i lt. absurd (omega (arith, lt)))
someone (suc n) senders = elim (Sender-cases (senders n)) [
  | inr (frames, h) ↦ inl (n, frames, h)
  | inl h ↦ elim (someone n senders) [
    | inl found ↦ inl found
    | inr all ↦ inr (λ i lt. elim (lt_or_le i n) [
      | inl l ↦ all i l
      | inr l ↦ ap senders (omega (arith, lt, l)) ∙ h
    ])
  ]
]

no_one :
    (n : ℕ) (senders : ℕ → Sender)
    → Within n senders
    → ((i : ℕ) → i < n → senders i ≡ dropped)
    → (i : ℕ) → senders i ≡ dropped
no_one n senders within all i = elim (lt_or_le i n) [ inl l ↦ all i l | inr l ↦ within i l ]

-- A sender can make a step where the channel has room or the writer is gone.
sender_step :
    (c : Channel) (i : ℕ) (frames : List Text)
    → c.senders i ≡ sending frames
    → ((is_gone c.writer ≡ false) × (c.queue ≡ [])) ⊎ (is_gone c.writer ≡ true)
    → (d : Channel) × Step c d
sender_step c i [] h free = (_, drop i h)
sender_step c i (frame ∷ frames) h (inl (w, q)) =
    (_, send i frame frames w h (omega (arith, ap length q)))
sender_step c i (frame ∷ frames) h (inr w) = (_, refused_on i frame frames w h)

queue_step :
    (n : ℕ) (c : Channel) (queue : List (ℕ × Text))
    → c.queue ≡ queue
    → c.writer ≡ running
    → Within n c.senders
    → (d : Channel) × Step c d
queue_step n c (m ∷ queue) q w within = (_, write m queue w q)
queue_step n c [] q w within = elim (someone n c.senders) [
  | inl (i, frames, h) ↦ sender_step c i frames h (inl (ap is_gone w, q))
  | inr all ↦ (_, finish w q (no_one n c.senders within all))
]

Within-GoesOn : (n : ℕ) (c : Channel) → Within n c.senders → ((d : Channel) × Step c d) ⊎ IsDone c
Within-GoesOn n c within = elim (Writer-cases c.writer) [
  | inl w ↦ inl (queue_step n c c.queue refl w within)
  | inr (inl w) ↦ inl (_, close w)
  | inr (inr w) ↦ elim (someone n c.senders) [
    | inl (i, frames, h) ↦ inl (sender_step c i frames h (inr w))
    | inr all ↦ inr (record { ended = w; alone = no_one n c.senders within all })
  ]
]

Reach-Within :
    (n : ℕ) {senders : ℕ → Sender} {c : Channel}
    → Within n senders
    → Reach senders c
    → Within n c.senders
Reach-Within n within start = within
Reach-Within n within (later r s) = Step-Within n s (Reach-Within n within r)

-- For a connection of `n` senders with finitely many frames: no run is longer than the measure of its
-- start, since every step lowers it; and a run can stop only when the writer has ended and every
-- sender is gone, so none of them is left waiting for another.
pub Reach-Ends :
    (n : ℕ) (senders : ℕ → Sender) {c : Channel}
    → Within n senders
    → Reach senders c
    → ((d : Channel) → Step c d → measure n d < measure n c)
      × (((d : Channel) × Step c d) ⊎ IsDone c)
Reach-Ends n senders {c} within r =
    let here = Reach-Within n within r in (λ d s. Step-measure n s here, Within-GoesOn n c here)
