-- ===== src/Ui/Prompts/Modal/Fits.antt =====
-- A modal gives only answers of its kind, and keeps its prompt.
use poly_term.Prelude.{
  ◌≡◌, ◌≢◌, refl, ◌⊎◌, inl, inr, Bool, true, false, Option, List, arith, Bool-cases, if◌then◌else◌,
}
use poly_term.Prelude.Text.{Text}
use poly_term.Core.Prompt.{
  Reply, TrustDecision, accept_once, accept_and_remember, password, passphrase,
  keyboard_interactive, CredentialRequest, HostKeyPrompt, CredentialPrompt,
}
use poly_term.Ui.Prompts.Modal.{
  PromptModal, host_key_modal, credential_modal, ModalAnswer, pending, trust, credential_cancelled,
  credential_secret, credential_responses, Frame, show, show_host_key, show_credential,
  credential_answer, secret_buttons, interactive_buttons, edited, ticked_for, field_count,
  credential_retry, with_error, credential,
}

abbrev pub modal_reply : PromptModal → Reply
modal_reply (host_key_modal prompt status) = prompt.reply
modal_reply (credential_modal prompt inputs remember error) = prompt.reply

-- The answers that a modal of its kind may give.
abbrev pub Fits : PromptModal → ModalAnswer → Type 0
Fits (host_key_modal prompt status) (trust d) = Unit
Fits (host_key_modal prompt status) pending = ⊥
Fits (host_key_modal prompt status) credential_cancelled = ⊥
Fits (host_key_modal prompt status) (credential_secret value remember) = ⊥
Fits (host_key_modal prompt status) (credential_responses values) = ⊥
Fits (credential_modal prompt inputs r error) (trust d) = ⊥
Fits (credential_modal prompt inputs r error) pending = ⊥
Fits (credential_modal prompt inputs r error) credential_cancelled = Unit
Fits (credential_modal prompt inputs r error) (credential_secret value remember) = Unit
Fits (credential_modal prompt inputs r error) (credential_responses values) = Unit

pub show-reply : (f : Frame) (m : PromptModal) → modal_reply (show f m).0 ≡ modal_reply m
unfolding show
show-reply f (host_key_modal prompt status) = refl
show-reply f (credential_modal prompt inputs remember error) = refl

host_key-Fits :
    (f : Frame) (prompt : HostKeyPrompt) (status : _)
    → (show_host_key f ≡ pending) ⊎ Fits (host_key_modal prompt status) (show_host_key f)
unfolding show_host_key
host_key-Fits f prompt status = ground arith

module _ (prompt : CredentialPrompt) (inputs : List Text) (r : Bool) (error : Option Text) where
  abbrev Gives : ModalAnswer → Type 0
  Gives answer = (answer ≡ pending) ⊎ Fits (credential_modal prompt inputs r error) answer

  secret_buttons-Gives : (f : Frame) (value : Text) (r' : Bool) → Gives (secret_buttons f value r')
  unfolding secret_buttons
  secret_buttons-Gives f value r' = ground arith

  credential_answer-Gives :
      (f : Frame) (request : CredentialRequest) (inputs' : List Text) (r' : Bool)
      → Gives (credential_answer f request inputs' r')
  unfolding credential_answer interactive_buttons
  credential_answer-Gives f (password u h) inputs' r' = secret_buttons-Gives f _ r'
  credential_answer-Gives f (passphrase k) inputs' r' = secret_buttons-Gives f _ r'
  credential_answer-Gives f (keyboard_interactive n i ps) inputs' r' = ground arith

pub show-Fits :
    (f : Frame) (m : PromptModal) → ((show f m).1 ≡ pending) ⊎ Fits (show f m).0 (show f m).1
unfolding show show_credential
show-Fits f (host_key_modal prompt status) = host_key-Fits f prompt status
show-Fits f (credential_modal prompt inputs remember error) = elim (Bool-cases f.window_open) [
  | inl e ↦
      let inputs' = edited f 0 (field_count prompt.request) inputs in
      let remember' = ticked_for f prompt prompt.request remember in
      rw e
        (credential_answer-Gives prompt inputs' remember' error f prompt.request inputs' remember')
  | inr e ↦ rw e (inr tt)
]

pub retry-reply :
    (prompt : CredentialPrompt) (message : Text)
    → modal_reply (credential_retry prompt message) ≡ prompt.reply
unfolding credential_retry with_error credential
retry-reply prompt message = refl

abbrev Accepts : ModalAnswer → Type 0
Accepts answer = (answer ≡ trust accept_and_remember) ⊎ (answer ≡ trust accept_once)

Trusts-ne : (answer : ModalAnswer) → ((d : _) → answer ≢ trust d) → ¬ Accepts answer
Trusts-ne answer ne (inl h) = ne _ h
Trusts-ne answer ne (inr h) = ne _ h

secret_buttons-ne :
    (f : Frame) (value : Text) (r : Bool) (d : TrustDecision) → secret_buttons f value r ≢ trust d
unfolding secret_buttons
secret_buttons-ne f value r d h = ground arith

credential_answer-ne :
    (f : Frame) (request : CredentialRequest) (inputs : List Text) (r : Bool) (d : TrustDecision)
    → credential_answer f request inputs r ≢ trust d
unfolding credential_answer interactive_buttons
credential_answer-ne f (password user host) inputs r d h = secret_buttons-ne f _ r d h
credential_answer-ne f (passphrase k) inputs r d h = secret_buttons-ne f _ r d h
credential_answer-ne f (keyboard_interactive n i ps) inputs r d h = ground arith

host_key-clicked :
    (f : Frame) → Accepts (show_host_key f) → (f.window_open ≡ true) × (f.accept_clicked ≡ true)
unfolding show_host_key
host_key-clicked f h = ground arith

closed-ne :
    (b : Bool) (answer : ModalAnswer)
    → ¬ Accepts answer
    → ¬ Accepts (if b then answer else credential_cancelled)
closed-ne true answer ne h = ne h
closed-ne false answer ne (inl h) = cc
closed-ne false answer ne (inr h) = cc

-- An acceptance was clicked.
pub show-clicked :
    (f : Frame) (m : PromptModal)
    → Accepts (show f m).1
    → (f.window_open ≡ true) × (f.accept_clicked ≡ true)
unfolding show show_credential
show-clicked f (host_key_modal prompt status) h = host_key-clicked f h
show-clicked f (credential_modal prompt inputs remember error) h =
    let inputs' = edited f 0 (field_count prompt.request) inputs in
    let remember' = ticked_for f prompt prompt.request remember in
    absurd (
      closed-ne f.window_open (credential_answer f prompt.request inputs' remember')
        (Trusts-ne _ (credential_answer-ne f prompt.request inputs' remember')) h)
