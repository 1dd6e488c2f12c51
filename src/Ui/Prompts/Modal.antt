-- ===== src/Ui/Prompts/Modal.antt =====
-- crates/polyterm-ui/src/prompts.rs: the modal windows. What egui reports of a frame (clicks, typed text, whether the
-- window is still open) is the argument `Frame`; the layout is not modelled.
pub mod Fits
use poly_term.Prelude.{
  ℕ, zero, suc, ◌+◌, Bool, true, false, ◌||◌, not, Option, none, some, List, [], ◌∷◌, length,
  replicate, get_or, if◌then◌else◌,
}
use poly_term.Prelude.Text.{Text}
use poly_term.Core.Session.{CredentialRef}
use poly_term.Core.Prompt.{
  TrustDecision, reject, accept_and_remember, KnownHostStatus, HostKeyPrompt, CredentialRequest,
  password, passphrase, keyboard_interactive, CredentialPrompt,
}

pub data PromptModal : Type 0 where
  host_key_modal : HostKeyPrompt → KnownHostStatus → PromptModal
  -- The prompt, its fields, whether to remember, and an error to show.
  credential_modal : CredentialPrompt → List Text → Bool → Option Text → PromptModal

pub data ModalAnswer : Type 0 where
  pending : ModalAnswer
  trust : TrustDecision → ModalAnswer
  credential_cancelled : ModalAnswer
  credential_secret : Text → Bool → ModalAnswer
  credential_responses : List Text → ModalAnswer

field_count : CredentialRequest → ℕ
field_count (keyboard_interactive name instruction prompts) = length prompts
field_count (password username host) = 1
field_count (passphrase key_path) = 1

unfoldable pub credential : CredentialPrompt → PromptModal
unfolding field_count
credential prompt = credential_modal prompt (replicate (field_count prompt.request) []) false none

with_error : Text → PromptModal → PromptModal
with_error message (credential_modal prompt inputs remember error) =
    credential_modal prompt inputs remember (some message)
with_error message (host_key_modal prompt status) = host_key_modal prompt status

unfoldable pub credential_retry : CredentialPrompt → Text → PromptModal
unfolding credential with_error
credential_retry prompt error = with_error error (credential prompt)

-- What a frame does: a field's new text from its old one, the check box, the buttons and the Enter key.
pub record Frame : Type 0 where
  pub typed : ℕ → Text → Text
  pub toggled : Bool
  pub accept_clicked : Bool
  pub reject_clicked : Bool
  pub ok_clicked : Bool
  pub enter : Bool
  pub cancel_clicked : Bool
  pub window_open : Bool

-- A later button overrides an earlier one; a closed window overrides both.
unfoldable pub show_host_key : Frame → ModalAnswer
show_host_key f =
    if not f.window_open
    then trust reject
    else if f.accept_clicked
    then trust accept_and_remember
    else if f.reject_clicked
    then trust reject
    else pending

unfoldable pub secret_buttons : Frame → Text → Bool → ModalAnswer
secret_buttons f value remember =
    if f.cancel_clicked
    then credential_cancelled
    else if f.ok_clicked || f.enter
    then credential_secret value remember
    else pending

interactive_buttons : Frame → List Text → ModalAnswer
interactive_buttons f inputs =
    if f.cancel_clicked
    then credential_cancelled
    else if f.ok_clicked
    then credential_responses inputs
    else pending

-- The first `count` fields, from the field `i` on.
edited : Frame → ℕ → ℕ → List Text → List Text
edited f i zero inputs = inputs
edited f i (suc count) [] = []
edited f i (suc count) (input ∷ inputs) = f.typed i input ∷ edited f (i + 1) count inputs

-- The box is there when a credential is named.
ticked : Frame → Option CredentialRef → Bool → Bool
ticked f none remember = remember
ticked f (some c) remember = if f.toggled then not remember else remember

credential_answer : Frame → CredentialRequest → List Text → Bool → ModalAnswer
unfolding interactive_buttons secret_buttons
credential_answer f (password username host) inputs remember =
    secret_buttons f (get_or inputs 0 []) remember
credential_answer f (passphrase key_path) inputs remember =
    secret_buttons f (get_or inputs 0 []) remember
credential_answer f (keyboard_interactive name instruction prompts) inputs remember =
    interactive_buttons f inputs

ticked_for : Frame → CredentialPrompt → CredentialRequest → Bool → Bool
unfolding ticked
ticked_for f prompt (password username host) remember = ticked f prompt.credential remember
ticked_for f prompt (passphrase key_path) remember = ticked f prompt.credential remember
ticked_for f prompt (keyboard_interactive name instruction prompts) remember = remember

unfoldable pub show_credential :
    Frame → CredentialPrompt → List Text → Bool → Option Text → PromptModal × ModalAnswer
unfolding credential_answer edited ticked_for field_count
show_credential f prompt inputs remember error =
    let inputs' = edited f 0 (field_count prompt.request) inputs in
    let remember' = ticked_for f prompt prompt.request remember in
    (
      credential_modal prompt inputs' remember' error,
      if f.window_open
          then credential_answer f prompt.request inputs' remember'
          else credential_cancelled,
    )

unfoldable pub show : Frame → PromptModal → PromptModal × ModalAnswer
unfolding show_host_key show_credential
show f (host_key_modal prompt status) = (host_key_modal prompt status, show_host_key f)
show f (credential_modal prompt inputs remember error) =
    show_credential f prompt inputs remember error
