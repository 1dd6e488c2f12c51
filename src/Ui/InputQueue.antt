-- ===== src/Ui/InputQueue.antt =====
-- crates/polyterm-ui/src/pane.rs: keystrokes on their way to the far end. `tokio`'s bounded channel is
-- a parameter; `taken` is what it has taken so far, oldest first.
pub mod Order
mod Tests
use poly_term.Prelude.{
  ℕ, ◌≡◌, Bool, true, false, List, [], ◌∷◌, ◌++◌, leb, is_empty, length, if◌then◌else◌,
}

abbrev pub Bytes : Type 0
Bytes = List ℕ

pub data SendResult : Type 0 where
  sent full closed : SendResult

pub record Channel : Type 1 where
  pub Chan : Type 0
  pub try_send : Chan → Bytes → SendResult × Chan
  pub taken : Chan → List Bytes
  pub taken_sent :
      (c : Chan) (b : Bytes) → (try_send c b).0 ≡ sent → taken (try_send c b).1 ≡ taken c ++ b ∷ []
  pub taken_full :
      (c : Chan) (b : Bytes) → (try_send c b).0 ≡ full → taken (try_send c b).1 ≡ taken c
  pub taken_closed :
      (c : Chan) (b : Bytes) → (try_send c b).0 ≡ closed → taken (try_send c b).1 ≡ taken c

abbrev pub input_pending_cap : ℕ
input_pending_cap = 64

pub record InputState (C : Channel) : Type 0 where
  pub input : C.Chan
  pub pending_input : List Bytes
  pub dropping_input : Bool

module _ (C : Channel) where
  pub enqueue_input : Bytes → InputState C → InputState C
  enqueue_input bytes s =
      if leb input_pending_cap (length s.pending_input)
      then record s { dropping_input = true }
      else record s { pending_input = s.pending_input ++ bytes ∷ [] }

  try_now : Bytes → InputState C → SendResult × C.Chan → InputState C
  unfolding enqueue_input
  try_now bytes s (sent, c) = record s { input = c }
  try_now bytes s (full, c) = enqueue_input bytes (record s { input = c })
  try_now bytes s (closed, c) = record s { input = c }

  pub send_input : Bytes → InputState C → InputState C
  unfolding try_now
  send_input bytes s =
      if is_empty bytes
      then s
      else if is_empty s.pending_input
      then try_now bytes s (C.try_send s.input bytes)
      else enqueue_input bytes s

  -- The loop of `drain_input`, on the queue from its front: the channel, what is still pending, and
  -- whether the mark for dropped input stays.
  abbrev drain_step :
      Bytes → List Bytes → Bool → (C.Chan → InputState C) → SendResult × C.Chan → InputState C
  drain_step front rest dropping go (sent, c) = go c
  drain_step front rest dropping go (full, c) = record {
    input = c;
    pending_input = front ∷ rest;
    dropping_input = dropping;
  }
  drain_step front rest dropping go (closed, c) = record {
    input = c;
    pending_input = [];
    dropping_input = false;
  }

  pub drain : List Bytes → Bool → C.Chan → InputState C
  drain [] dropping c = record { input = c; pending_input = []; dropping_input = false }
  drain (front ∷ rest) dropping c =
      drain_step front rest dropping (drain rest dropping) (C.try_send c front)

  pub drain_input : InputState C → InputState C
  drain_input s = drain s.pending_input s.dropping_input s.input
