-- ===== src/Ui/InputQueue/Order.antt =====
-- crates/polyterm-ui/src/pane.rs: the far end gets what was typed in order, and the queue is bounded.
use poly_term.Prelude.{
  ◌≤◌, ◌≡◌, refl, sym, ap, ◌∙◌, ◌⊎◌, inl, inr, Bool, true, false, List, [], ◌∷◌, ◌++◌, append_assoc,
  append-nil, arith, leb, is_empty, length, length-append, suc, Bool-cases,
}
use poly_term.Ui.InputQueue.{
  Bytes, SendResult, sent, full, closed, Channel, input_pending_cap, InputState, enqueue_input,
  try_now, send_input, drain_step, drain, drain_input,
}

-- What is left of a list when some entries are skipped.
pub data Subseq {ℓ} {A : Type ℓ} : List A → List A → Type ℓ where
  done : Subseq [] []
  keep : (a : A) {xs ys : List A} → Subseq xs ys → Subseq (a ∷ xs) (a ∷ ys)
  skip : (a : A) {xs ys : List A} → Subseq xs ys → Subseq xs (a ∷ ys)

SendResult-cases : (r : SendResult) → (r ≡ sent) ⊎ (r ≡ full) ⊎ (r ≡ closed)
SendResult-cases sent = inl refl
SendResult-cases full = inr (inl refl)
SendResult-cases closed = inr (inr refl)

module _ (C : Channel) where
  -- What the far end has or will get.
  abbrev pub stream : InputState C → List Bytes
  stream s = C.taken s.input ++ s.pending_input

  enqueue_bound :
      (bytes : Bytes) (s : InputState C)
      → length s.pending_input ≤ input_pending_cap
      → length (enqueue_input C bytes s).pending_input ≤ input_pending_cap
  unfolding enqueue_input
  enqueue_bound bytes s h = ground (arith, length-append s.pending_input (bytes ∷ []))

  send_bound :
      (bytes : Bytes) (s : InputState C)
      → length s.pending_input ≤ input_pending_cap
      → length (send_input C bytes s).pending_input ≤ input_pending_cap
  unfolding send_input enqueue_input
  send_bound bytes s h = ground (arith, length-append s.pending_input (bytes ∷ []))

  drain_step_bound :
      (front : Bytes) (rest : List Bytes) (dropping : Bool) (go : C.Chan → InputState C)
      → ((c : C.Chan) → length (go c).pending_input ≤ length rest)
      → (r : SendResult × C.Chan)
      → length (drain_step C front rest dropping go r).pending_input ≤ suc (length rest)
  drain_step_bound front rest dropping go ih (sent, c) = omega (arith, ih c)
  drain_step_bound front rest dropping go ih (full, c) = omega arith
  drain_step_bound front rest dropping go ih (closed, c) = omega arith

  drain_bound :
      (pending : List Bytes) (dropping : Bool) (c : C.Chan)
      → length (drain C pending dropping c).pending_input ≤ length pending
  unfolding drain
  drain_bound [] dropping c = omega arith
  drain_bound (front ∷ rest) dropping c =
      drain_step_bound front rest dropping (drain C rest dropping) (drain_bound rest dropping)
        (C.try_send c front)

  -- The channel's answer to one `try_send`, with what it then has taken.
  Answered : Bytes → C.Chan → SendResult × C.Chan → Type 0
  Answered b c (sent, c') = C.taken c' ≡ C.taken c ++ b ∷ []
  Answered b c (full, c') = C.taken c' ≡ C.taken c
  Answered b c (closed, c') = C.taken c' ≡ C.taken c

  answered : (b : Bytes) (c : C.Chan) → Answered b c (C.try_send c b)
  unfolding Answered
  answered b c = go (C.try_send c b) (C.taken_sent c b) (C.taken_full c b) (C.taken_closed c b)
    where
      go :
          (r : SendResult × C.Chan)
          → (r.0 ≡ sent → C.taken r.1 ≡ C.taken c ++ b ∷ [])
          → (r.0 ≡ full → C.taken r.1 ≡ C.taken c)
          → (r.0 ≡ closed → C.taken r.1 ≡ C.taken c)
          → Answered b c r
      go (sent, c') s f k = s refl
      go (full, c') s f k = f refl
      go (closed, c') s f k = k refl

  -- One `enqueue_input` adds to the end of the stream, or marks the input as dropped at the cap.
  pub Accounted : Bytes → InputState C → InputState C → Type 0
  Accounted bytes s s' =
      (stream s' ≡ stream s ++ bytes ∷ [])
      ⊎ (stream s' ≡ stream s)
        × ((s'.dropping_input ≡ true) × (input_pending_cap ≤ length s.pending_input))

  enqueue-Accounted :
      (bytes : Bytes) (s : InputState C) → Accounted bytes s (enqueue_input C bytes s)
  unfolding Accounted enqueue_input
  enqueue-Accounted bytes s = elim (Bool-cases (leb input_pending_cap (length s.pending_input))) [
    | inl e ↦ inr (rw e refl, (rw e refl, ground arith))
    | inr e ↦ inl (rw e (sym (append_assoc (C.taken s.input) s.pending_input (bytes ∷ []))))
  ]

  try_now-Accounted :
      (bytes : Bytes) (s : InputState C)
      → s.pending_input ≡ []
      → (r : SendResult × C.Chan) → Answered bytes s.input r
      → Accounted bytes s (try_now C bytes s r)
        ⊎ (stream (try_now C bytes s r) ≡ stream s) × (r.0 ≡ closed)
  unfolding try_now Answered Accounted
  try_now-Accounted bytes s e (sent, c) taken =
      inl (inl (rw (e, taken, append-nil (C.taken s.input)) (append-nil _)))
  try_now-Accounted bytes s e (full, c) taken =
      inl (elim (enqueue-Accounted bytes (record s { input = c })) [
        | inl a ↦ inl (a ∙ ap (λ t. (t ++ s.pending_input) ++ bytes ∷ []) taken)
        | inr (a, b) ↦ inr (a ∙ ap (λ t. t ++ s.pending_input) taken, b)
      ])
  try_now-Accounted bytes s e (closed, c) taken = inr (ap (λ t. t ++ s.pending_input) taken, refl)

  is_empty-nil : (xs : List Bytes) → is_empty xs ≡ true → xs ≡ []
  is_empty-nil [] e = refl
  is_empty-nil (x ∷ xs) e = cc

  -- Every non-empty input goes to the end of what the far end has or will get, except at the cap,
  -- where the pane is marked as having dropped input, and on a closed channel.
  pub stream-send_input :
      (bytes : Bytes) (s : InputState C)
      → is_empty bytes ≡ false
      → Accounted bytes s (send_input C bytes s)
        ⊎ (stream (send_input C bytes s) ≡ stream s) × ((C.try_send s.input bytes).0 ≡ closed)
  unfolding send_input
  stream-send_input bytes s nonempty = elim (Bool-cases (is_empty s.pending_input)) [
    | inl e ↦
        rw (nonempty, e)
          (try_now-Accounted bytes s (is_empty-nil s.pending_input e) (C.try_send s.input bytes)
            (answered bytes s.input))
    | inr e ↦ rw (nonempty, e) (inl (enqueue-Accounted bytes s))
  ]

  -- A run: what was typed, oldest first. Between the pane's own steps the channel may change in any
  -- way that leaves what it has taken.
  pub data Run (start : InputState C) : List Bytes → InputState C → Type 0 where
    opened : Run start [] start
    typed :
        (bytes : Bytes) {inputs : List Bytes} {s : InputState C}
        → Run start inputs s
        → Run start (inputs ++ bytes ∷ []) (send_input C bytes s)
    drained :
        {inputs : List Bytes} {s : InputState C}
        → Run start inputs s
        → Run start inputs (drain_input C s)
    moved :
        (c : C.Chan) {inputs : List Bytes} {s : InputState C}
        → C.taken c ≡ C.taken s.input
        → Run start inputs s
        → Run start inputs (record s { input = c })

  -- A pane that starts within the cap never holds more than the cap of pending inputs.
  pub run-bound :
      (start : InputState C) {inputs : List Bytes} {s : InputState C}
      → length start.pending_input ≤ input_pending_cap
      → Run start inputs s
      → length s.pending_input ≤ input_pending_cap
  unfolding drain_input
  run-bound start h opened = h
  run-bound start h (typed bytes {s = s} r) = send_bound bytes s (run-bound start h r)
  run-bound start h (drained {s = s} r) =
      omega (arith, run-bound start h r, drain_bound s.pending_input s.dropping_input s.input)
  run-bound start h (moved c e r) = run-bound start h r
