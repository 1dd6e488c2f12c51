-- ===== src/Core/Forward.antt =====
-- crates/polyterm-core/src/forward.rs: port forwards as the window asks for them and hears of them.
use poly_term.Prelude.{ℕ}
use poly_term.Prelude.Text.{Text}

pub data ForwardKind : Type 0 where
  local remote dynamic : ForwardKind

pub record ForwardSpec : Type 0 where
  pub kind : ForwardKind
  pub bind_host : Text
  pub bind_port : ℕ
  pub target_host : Text
  pub target_port : ℕ

abbrev pub ForwardId : Type 0
ForwardId = ℕ

pub data ForwardState : Type 0 where
  starting active : ForwardState
  failed : Text → ForwardState
  closed : ForwardState

pub record ForwardStatus : Type 0 where
  pub id : ForwardId
  pub spec : ForwardSpec
  pub state : ForwardState
