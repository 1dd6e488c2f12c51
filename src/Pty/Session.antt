-- ===== src/Pty/Session.antt =====
-- crates/polyterm-pty/src/lib.rs: the command of a local shell, and the three tasks of a session: the reader, the writer
-- and the controller. What the channels, the terminal and the child do is an argument: a list of what each turn of a
-- loop finds.
pub mod Lifecycle
mod Tests
use poly_term.Prelude.{ℕ, Bool, true, false, Option, none, some, List, [], ◌∷◌, ◌++◌}
use poly_term.Prelude.Text.{Text}
use poly_term.Core.Session.{PathBuf, PtyConfig}
use poly_term.Core.Transport.{
  ControlMsg, resize, break, set_signal, reconnect, disconnect, add_forward, remove_forward,
  open_sftp, DisconnectReason, local, remote, TransportEvent, connected, disconnected,
}

-- `CommandBuilder`, as far as the code fills it.
pub record Command : Type 0 where
  pub program : Option PathBuf
  pub cwd : Option PathBuf
  pub env : List (Text × Text)

pub build_command : PtyConfig → Command
build_command cfg = record { program = cfg.shell; cwd = cfg.working_directory; env = cfg.env }

-- What a read of the terminal gives. A chunk is not empty; a read of no bytes is the end.
pub data Read : Type 0 where
  end_of_file : Read
  chunk : List ℕ → Read
  interrupted : Read
  read_error : Read

-- The chunks put on the output channel; the flag of a read says whether the window still takes its chunk. The reads end
-- when the task still waits for one.
pub spawn_reader : List (Read × Bool) → List (List ℕ)
spawn_reader [] = []
spawn_reader ((end_of_file, open_end) ∷ reads) = []
spawn_reader ((chunk bytes, true) ∷ reads) = bytes ∷ spawn_reader reads
spawn_reader ((chunk bytes, false) ∷ reads) = []
spawn_reader ((interrupted, open_end) ∷ reads) = spawn_reader reads
spawn_reader ((read_error, open_end) ∷ reads) = []

-- The bytes written; the flag says whether the write succeeds.
pub spawn_writer : List (List ℕ × Bool) → List ℕ
spawn_writer [] = []
spawn_writer ((bytes, true) ∷ input) = bytes ++ spawn_writer input
spawn_writer ((bytes, false) ∷ input) = []

-- What the controller's `select!` takes next: a message, the end of the control channel, or the child's exit.
pub data Ready : Type 0 where
  received : ControlMsg → Ready
  hung_up : Ready
  exited : Ready

-- What the controller does, in order. `reaps` waits for the child to be gone.
pub data Effect : Type 0 where
  sends : TransportEvent → Effect
  resizes : ℕ → ℕ → Effect
  kills : Effect
  reaps : Effect

-- Behind the loop: the child is waited for if it is not gone yet.
finish : Bool → DisconnectReason → List Effect
finish true reason = sends (disconnected reason) ∷ []
finish false reason = reaps ∷ sends (disconnected reason) ∷ []

-- The flag says whether a killed child is gone at once.
control : Bool → List Ready → List Effect
unfolding finish
control gone [] = []
control gone (received (resize cols rows) ∷ rs) = resizes cols rows ∷ control gone rs
control gone (received disconnect ∷ rs) = kills ∷ finish gone local
control gone (hung_up ∷ rs) = kills ∷ finish gone local
control gone (exited ∷ rs) = finish true remote
control gone (received break ∷ rs) = control gone rs
control gone (received (set_signal signal level) ∷ rs) = control gone rs
control gone (received reconnect ∷ rs) = control gone rs
control gone (received (add_forward id spec) ∷ rs) = control gone rs
control gone (received (remove_forward id) ∷ rs) = control gone rs
control gone (received open_sftp ∷ rs) = control gone rs

pub spawn_controller : Bool → List Ready → List Effect
unfolding control
spawn_controller gone rs = sends connected ∷ control gone rs
