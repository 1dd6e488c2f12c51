-- ===== src/Pty/Session/Lifecycle.antt =====
-- How a local shell's session ends.
use poly_term.Prelude.{ℕ, ◌≡◌, refl, ap, Bool, true, false, List, [], ◌∷◌, ◌++◌, eqb}
use poly_term.Core.Transport.{
  resize, break, set_signal, reconnect, disconnect, add_forward, remove_forward, open_sftp, local,
  remote, TransportEvent, connecting, host_key, credential, authenticated, connected, modem_status,
  disconnected, error, forward_status,
}
use poly_term.Pty.Session.{
  Ready, received, hung_up, exited, Effect, sends, resizes, kills, reaps, finish, control,
  spawn_controller,
}

-- How a session ends, if it does.
pub data Cause : Type 0 where
  still_runs child_exited told_to_end : Cause

-- What comes first: the child's exit, or a request to disconnect or the loss of the control channel.
abbrev pub cause : List Ready → Cause
cause [] = still_runs
cause (exited ∷ rs) = child_exited
cause (hung_up ∷ rs) = told_to_end
cause (received disconnect ∷ rs) = told_to_end
cause (received (resize cols rows) ∷ rs) = cause rs
cause (received break ∷ rs) = cause rs
cause (received (set_signal signal level) ∷ rs) = cause rs
cause (received reconnect ∷ rs) = cause rs
cause (received (add_forward id spec) ∷ rs) = cause rs
cause (received (remove_forward id) ∷ rs) = cause rs
cause (received open_sftp ∷ rs) = cause rs

abbrev is_report : TransportEvent → ℕ
is_report (disconnected reason) = 1
is_report connecting = 0
is_report (host_key prompt) = 0
is_report (credential prompt) = 0
is_report authenticated = 0
is_report connected = 0
is_report (modem_status lines) = 0
is_report (error message) = 0
is_report (forward_status status) = 0

-- Neither a report of the end nor a kill or a wait for the child.
abbrev quiet_effect : Effect → Bool
quiet_effect (sends event) = eqb (is_report event) 0
quiet_effect (resizes cols rows) = true
quiet_effect kills = false
quiet_effect reaps = false

abbrev pub Quiet : List Effect → Type 0
Quiet [] = Unit
Quiet (e ∷ effects) = (quiet_effect e ≡ true) × Quiet effects

-- The wait for a killed child that is not gone at once.
abbrev pub reaping : Bool → List Effect
reaping true = []
reaping false = reaps ∷ []

-- What is done for each cause, at the end.
abbrev pub Ends : Cause → Bool → List Effect → Type 0
Ends still_runs gone effects = Quiet effects
Ends child_exited gone effects =
    (before : List Effect) × (effects ≡ before ++ sends (disconnected remote) ∷ []) × Quiet before
Ends told_to_end gone effects =
    (before : List Effect) × (effects
      ≡ before ++ kills ∷ reaping gone ++ sends (disconnected local) ∷ [])
    × Quiet before

quiet_first :
    (c : Cause) (gone : Bool) (e : Effect) (effects : List Effect)
    → quiet_effect e ≡ true
    → Ends c gone effects
    → Ends c gone (e ∷ effects)
quiet_first still_runs gone e effects h rest = (h, rest)
quiet_first child_exited gone e effects h (before, same, quiet) =
    (e ∷ before, ap (◌∷◌ e) same, (h, quiet))
quiet_first told_to_end gone e effects h (before, same, quiet) =
    (e ∷ before, ap (◌∷◌ e) same, (h, quiet))

killed : (gone : Bool) → Ends told_to_end gone (kills ∷ finish gone local)
unfolding finish
killed true = ([], refl, tt)
killed false = ([], refl, tt)

control-Ends : (gone : Bool) (rs : List Ready) → Ends (cause rs) gone (control gone rs)
unfolding control finish
control-Ends gone [] = tt
control-Ends gone (received (resize cols rows) ∷ rs) =
    quiet_first (cause rs) gone (resizes cols rows) (control gone rs) refl (control-Ends gone rs)
control-Ends gone (received disconnect ∷ rs) = killed gone
control-Ends gone (hung_up ∷ rs) = killed gone
control-Ends gone (exited ∷ rs) = ([], refl, tt)
control-Ends gone (received break ∷ rs) = control-Ends gone rs
control-Ends gone (received (set_signal signal level) ∷ rs) = control-Ends gone rs
control-Ends gone (received reconnect ∷ rs) = control-Ends gone rs
control-Ends gone (received (add_forward id spec) ∷ rs) = control-Ends gone rs
control-Ends gone (received (remove_forward id) ∷ rs) = control-Ends gone rs
control-Ends gone (received open_sftp ∷ rs) = control-Ends gone rs

-- What comes first decides how a local shell's session ends. On the child's own exit its last effect is the report of a
-- remote end, and nothing was killed. On a request to disconnect or the loss of the control channel it kills the
-- child, waits for it if it is not gone at once, and reports a local end last. While neither came, and before the
-- end, it reports no end and leaves the child alone.
pub spawn_controller-Ends :
    (gone : Bool) (rs : List Ready) → Ends (cause rs) gone (spawn_controller gone rs)
unfolding spawn_controller
spawn_controller-Ends gone rs =
    quiet_first (cause rs) gone (sends connected) (control gone rs) refl (control-Ends gone rs)
