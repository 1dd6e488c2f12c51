-- ===== src/Ssh/Reconnect.antt =====
-- crates/polyterm-ssh/src/lib.rs: `run`, which drives one session and reconnects, and `wait_backoff`. What
-- `establish` and `run_connected` did in each turn of the loop, and what arrived during each wait, are
-- arguments; a wait is counted in seconds.
pub mod Policy
mod Tests
use poly_term.Prelude.{
  ℕ, ◌*◌, min, Bool, true, false, Option, none, some, List, [], ◌∷◌, ◌++◌, if◌then◌else◌,
}
use poly_term.Core.Transport.{
  ControlMsg, resize, break, set_signal, reconnect, disconnect, add_forward, remove_forward,
  open_sftp, DisconnectReason, local, remote, device_removed, timeout, failed, TransportEvent,
  connecting, authenticated, disconnected,
}

abbrev pub initial_backoff : ℕ
initial_backoff = 1

abbrev pub max_backoff : ℕ
max_backoff = 30

pub data BackoffOutcome : Type 0 where
  elapsed reconnect_now stop : BackoffOutcome

-- What `select!` takes next: the end of the sleep, a message, or the end of the control channel.
pub data Wake : Type 0 where
  slept : Wake
  received : ControlMsg → Wake
  hung_up : Wake

-- `none` while it still waits.
pub wait_backoff : List Wake → Option BackoffOutcome
wait_backoff [] = none
wait_backoff (slept ∷ wakes) = some elapsed
wait_backoff (hung_up ∷ wakes) = some stop
wait_backoff (received reconnect ∷ wakes) = some reconnect_now
wait_backoff (received disconnect ∷ wakes) = some stop
wait_backoff (received (resize c r) ∷ wakes) = wait_backoff wakes
wait_backoff (received break ∷ wakes) = wait_backoff wakes
wait_backoff (received (set_signal s b) ∷ wakes) = wait_backoff wakes
wait_backoff (received (add_forward i s) ∷ wakes) = wait_backoff wakes
wait_backoff (received (remove_forward i) ∷ wakes) = wait_backoff wakes
wait_backoff (received open_sftp ∷ wakes) = wait_backoff wakes

-- One turn of the loop: the outcome of `establish`, with why the session ended where one was established, and
-- what arrives during the wait.
pub record Turn : Type 0 where
  pub session : Option DisconnectReason
  pub wakes : List Wake

-- What `run` itself does, in order.
pub data Effect : Type 0 where
  sends : TransportEvent → Effect
  waits : ℕ → Effect

unfoldable pub reconnects : DisconnectReason → Bool
reconnects local = false
reconnects remote = false
reconnects device_removed = false
reconnects timeout = true
reconnects (failed reason) = true

-- The rest of a turn after a wait: the next turn, or the end.
abbrev pub after_wait : Option BackoffOutcome → List Effect → List Effect
after_wait none next = []
after_wait (some elapsed) next = next
after_wait (some reconnect_now) next = next
after_wait (some stop) next = []

-- The loop, a turn at a time, with `backoff` and `connected_before` at its head. `next` is the following turn
-- for the `backoff` that this one leaves.
abbrev pub turn : Turn → ℕ → Bool → (ℕ → Bool → List Effect) → List Effect
turn t backoff connected_before next = sends connecting ∷ elim t.session [
  | none ↦
      if connected_before
      then waits backoff
        ∷ after_wait (wait_backoff t.wakes) (next (min (backoff * 2) max_backoff) true)
      else []
  | some reason ↦
      sends authenticated
      ∷ sends (disconnected reason)
      ∷ (if reconnects reason
          then waits initial_backoff
            ∷ after_wait (wait_backoff t.wakes) (next (min (initial_backoff * 2) max_backoff) true)
          else [])
]

pub run_loop : List Turn → ℕ → Bool → List Effect
run_loop [] backoff connected_before = []
run_loop (t ∷ turns) backoff connected_before =
    turn t backoff connected_before
      (λ backoff connected_before. run_loop turns backoff connected_before)

pub run : List Turn → List Effect
unfolding run_loop
run turns = run_loop turns initial_backoff false
