-- ===== src/Core/Transport.antt =====
-- crates/polyterm-core/src/transport.rs: the messages between the window and a back end. The channel
-- ends that `open_sftp` carries are opaque, and an error is its text.
use poly_term.Prelude.{ℕ, Bool}
use poly_term.Prelude.Text.{Text}
use poly_term.Core.Forward.{ForwardId, ForwardSpec, ForwardStatus}
use poly_term.Core.Prompt.{HostKeyPrompt, CredentialPrompt}

pub data SerialSignal : Type 0 where
  dtr rts : SerialSignal

pub record ModemLines : Type 0 where
  pub cts : Bool
  pub dsr : Bool
  pub dcd : Bool
  pub ri : Bool

pub data ControlMsg : Type 0 where
  resize : ℕ → ℕ → ControlMsg
  break : ControlMsg
  set_signal : SerialSignal → Bool → ControlMsg
  reconnect : ControlMsg
  disconnect : ControlMsg
  add_forward : ForwardId → ForwardSpec → ControlMsg
  remove_forward : ForwardId → ControlMsg
  open_sftp : ControlMsg

pub data DisconnectReason : Type 0 where
  local remote device_removed timeout : DisconnectReason
  failed : Text → DisconnectReason

pub data TransportEvent : Type 0 where
  connecting : TransportEvent
  host_key : HostKeyPrompt → TransportEvent
  credential : CredentialPrompt → TransportEvent
  authenticated : TransportEvent
  connected : TransportEvent
  modem_status : ModemLines → TransportEvent
  disconnected : DisconnectReason → TransportEvent
  error : Text → TransportEvent
  forward_status : ForwardStatus → TransportEvent
