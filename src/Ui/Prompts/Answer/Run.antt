-- ===== src/Ui/Prompts/Answer/Run.antt =====
-- A run of the application's prompts: what back ends raise and what the user does, in any order.
use poly_term.Prelude.{
  ℕ, ◌+◌, ◌≡◌, Option, none, some, List, [], ◌∷◌, ◌++◌, eqb, arith, if◌then◌else◌,
}
use poly_term.Prelude.Path.{PathBuf}
use poly_term.Core.Prompt.{Reply}
use poly_term.Store.Credentials.{Platform}
use poly_term.Ui.Keys.{PrivateKey}
use poly_term.Ui.PaneEvents.{PendingPrompt, host_key_prompt, credential_prompt}
use poly_term.Ui.Prompts.Modal.{PromptModal, Frame}
use poly_term.Ui.Prompts.Answer.{Sent, Prompts, handle_prompt, modal_frame, forget_passphrases}

pub data Event : Type 0 where
  raised : PendingPrompt → Event
  frame : Frame → Event
  forget : Event

abbrev pub prompt_reply : PendingPrompt → Reply
prompt_reply (host_key_prompt prompt) = prompt.reply
prompt_reply (credential_prompt prompt) = prompt.reply

abbrev pub sent_reply : Reply × Sent → Reply
sent_reply e = e.0

abbrev pub one : Reply → Reply → ℕ
one r x = if eqb x r then 1 else 0

-- How many of the elements are about the reply.
unfoldable pub count {ℓ} : {A : Type ℓ} → (A → Reply) → Reply → List A → ℕ
count f r [] = 0
count f r (x ∷ xs) = one r (f x) + count f r xs

pub count-append {ℓ} :
    {A : Type ℓ} (f : A → Reply) (r : Reply) (xs ys : List A)
    → count f r (xs ++ ys) ≡ count f r xs + count f r ys
unfolding count
count-append f r [] ys = omega arith
count-append f r (x ∷ xs) ys = omega (arith, count-append f r xs ys)

abbrev pub opened : Option PromptModal → List PromptModal
opened none = []
opened (some modal) = modal ∷ []

-- The prompts raised in a run.
abbrev pub raised_prompts : List Event → List PendingPrompt
raised_prompts [] = []
raised_prompts (raised prompt ∷ events) = prompt ∷ raised_prompts events
raised_prompts (frame f ∷ events) = raised_prompts events
raised_prompts (forget ∷ events) = raised_prompts events

module _ {K : Type 0} (platform : Platform K)
    (read_openssh_file : PathBuf → Option PrivateKey) where
  unfoldable pub step : Event → Prompts K → Prompts K
  step (raised prompt) s = handle_prompt platform read_openssh_file prompt s
  step (frame f) s = modal_frame platform read_openssh_file f s
  step forget s = forget_passphrases s

  unfoldable pub run : List Event → Prompts K → Prompts K
  unfolding step
  run [] s = s
  run (e ∷ events) s = run events (step e s)
