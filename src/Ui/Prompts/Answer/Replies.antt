-- ===== src/Ui/Prompts/Answer/Replies.antt =====
-- Every prompt's reply is sent once or waits in a modal.
use poly_term.Prelude.{
  ℕ, ◌+◌, ◌≡◌, refl, ap, ◌∙◌, ◌⊎◌, inl, inr, Bool, Option, none, some, List, [], ◌∷◌, arith,
}
use poly_term.Prelude.Text.{Text, codes}
use poly_term.Prelude.Path.{PathBuf}
use poly_term.Core.Prompt.{
  Reply, KnownHostStatus, unknown, matching, changed, HostKeyPrompt, CredentialPrompt,
  CredentialRequest, password, passphrase, keyboard_interactive,
}
use poly_term.Store.Credentials.{Platform}
use poly_term.Ui.Keys.{PassphraseCheck, correct, incorrect, unverifiable, PrivateKey}
use poly_term.Ui.PaneEvents.{PendingPrompt, host_key_prompt, credential_prompt}
use poly_term.Ui.Prompts.Modal.{
  PromptModal, host_key_modal, credential_modal, credential, credential_retry, ModalAnswer, pending,
  trust, credential_cancelled, credential_secret, credential_responses, Frame, show,
}
use poly_term.Ui.Prompts.Modal.Fits.{modal_reply, Fits, show-reply, show-Fits, retry-reply}
use poly_term.Ui.Prompts.Answer.{
  remember_secret, insert, remember_key, on_status, handle_credential, release, checked, on_secret,
  answered, shown, next_modal, Sent, Prompts, send, enqueue_modal, handle_prompt, resolve_modal,
  modal_frame, forget_passphrases,
}
use poly_term.Ui.Prompts.Answer.Run.{
  Event, raised, frame, forget, prompt_reply, sent_reply, one, count, count-append, opened,
  raised_prompts, step, run,
}

module _ {K : Type 0} (r : Reply) where
  -- The replies sent, and those that a modal holds.
  abbrev total : Prompts K → ℕ
  total s =
      count sent_reply r s.sent
      + (count modal_reply r (opened s.modal) + count modal_reply r s.modal_queue)

  total-send : (x : Reply) (a : Sent) (s : Prompts K) → total (send x a s) ≡ total s + one r x
  unfolding send count
  total-send x a s = omega (arith, count-append sent_reply r s.sent ((x, a) ∷ []))

  total-enqueue_to :
      (m : PromptModal) (s : Prompts K) (o : Option PromptModal)
      → s.modal ≡ o
      → total (enqueue_modal m s) ≡ total s + one r (modal_reply m)
  unfolding enqueue_modal count
  total-enqueue_to m s none e = rw e (omega arith)
  total-enqueue_to m s (some m') e =
      rw e (omega (arith, count-append modal_reply r s.modal_queue (m ∷ [])))

  total-enqueue_modal :
      (m : PromptModal) (s : Prompts K)
      → total (enqueue_modal m s) ≡ total s + one r (modal_reply m)
  total-enqueue_modal m s = total-enqueue_to m s s.modal refl

  total-on_status :
      (prompt : HostKeyPrompt) (status : KnownHostStatus) (s : Prompts K)
      → total (on_status prompt status s) ≡ total s + one r prompt.reply
  unfolding on_status
  total-on_status prompt matching s = total-send prompt.reply _ s
  total-on_status prompt unknown s = total-enqueue_modal (host_key_modal prompt unknown) s
  total-on_status prompt changed s = total-enqueue_modal (host_key_modal prompt changed) s

  module _ (platform : Platform K) (read_openssh_file : PathBuf → Option PrivateKey) where
    total-handle_credential :
        (prompt : CredentialPrompt) (o o' : Option Text) (s : Prompts K)
        → total (handle_credential platform read_openssh_file prompt o o' s)
          ≡ total s + one r prompt.reply
    unfolding handle_credential credential
    total-handle_credential prompt (some v) o' s = total-send prompt.reply _ s
    total-handle_credential prompt none (some v) s = total-send prompt.reply _ s
    total-handle_credential prompt none none s = total-enqueue_modal (credential prompt) s

    total-handle_prompt :
        (p : PendingPrompt) (s : Prompts K)
        → total (handle_prompt platform read_openssh_file p s) ≡ total s + one r (prompt_reply p)
    unfolding handle_prompt
    total-handle_prompt (host_key_prompt prompt) s = total-on_status prompt _ s
    total-handle_prompt (credential_prompt prompt) s = total-handle_credential prompt _ _ s

    total-release :
        (prompt : CredentialPrompt) (v : Text) (b : Bool) (s : Prompts K)
        → total (release platform read_openssh_file prompt v b s) ≡ total s + one r prompt.reply
    unfolding release
    total-release prompt v b s = total-send prompt.reply _ (record s {
      keyring = remember_secret platform read_openssh_file b prompt.credential v s.keyring;
    })

    total-checked :
        (prompt : CredentialPrompt) (path : PathBuf) (v : Text) (b : Bool) (c : PassphraseCheck)
        (s : Prompts K)
        → total (checked platform read_openssh_file prompt path v b c s)
          ≡ total s + one r prompt.reply
    unfolding checked
    total-checked prompt path v b incorrect s =
        total-enqueue_modal (credential_retry prompt (codes "Wrong passphrase.")) s
        ∙ ap (λ x. total s + one r x) (retry-reply prompt (codes "Wrong passphrase."))
    total-checked prompt path v b correct s =
        total-release prompt v b (record s { passphrase_cache = insert path v s.passphrase_cache })
    total-checked prompt path v b unverifiable s =
        total-release prompt v b (record s { passphrase_cache = insert path v s.passphrase_cache })

    total-on_secret :
        (request : CredentialRequest) (prompt : CredentialPrompt) (v : Text) (b : Bool)
        (s : Prompts K)
        → total (on_secret platform read_openssh_file request prompt v b s)
          ≡ total s + one r prompt.reply
    unfolding on_secret
    total-on_secret (passphrase path) prompt v b s = total-checked prompt path v b _ s
    total-on_secret (password u h) prompt v b s = total-release prompt v b s
    total-on_secret (keyboard_interactive n i ps) prompt v b s = total-release prompt v b s

    total-answered :
        (m : PromptModal) (a : ModalAnswer) (s : Prompts K)
        → s.modal ≡ none
        → (a ≡ pending) ⊎ Fits m a
        → total (answered platform read_openssh_file m a s) ≡ total s + one r (modal_reply m)
    unfolding answered resolve_modal count
    total-answered m pending s e fits = rw e (omega arith)
    total-answered (host_key_modal prompt status) (trust d) s e fits =
        total-send prompt.reply _ (record s {
          known_hosts = remember_key platform read_openssh_file prompt d s.known_hosts;
        })
    total-answered (host_key_modal prompt status) credential_cancelled s e (inr h) = absurd h
    total-answered (host_key_modal prompt status) credential_cancelled s e (inl h) = cc
    total-answered (host_key_modal prompt status) (credential_secret v b) s e (inl h) = cc
    total-answered (host_key_modal prompt status) (credential_secret v b) s e (inr h) = absurd h
    total-answered (host_key_modal prompt status) (credential_responses vs) s e (inl h) = cc
    total-answered (host_key_modal prompt status) (credential_responses vs) s e (inr h) = absurd h
    total-answered (credential_modal prompt inputs b error) (trust d) s e (inl h) = cc
    total-answered (credential_modal prompt inputs b error) (trust d) s e (inr h) = absurd h
    total-answered (credential_modal prompt inputs b error) credential_cancelled s e fits =
        total-send prompt.reply _ s
    total-answered (credential_modal prompt inputs b error) (credential_secret v b') s e fits =
        total-on_secret prompt.request prompt v b' s
    total-answered (credential_modal prompt inputs b error) (credential_responses vs) s e fits =
        total-send prompt.reply _ s

    total-shown :
        (f : Frame) (o : Option PromptModal) (s : Prompts K)
        → s.modal ≡ o
        → total (shown platform read_openssh_file f o s) ≡ total s
    unfolding shown count
    total-shown f none s e = refl
    total-shown f (some m) s e = rw e (
        total-answered (show f m).0 (show f m).1 (record s { modal = none }) refl (show-Fits f m)
        ∙ rw (show-reply f m) (omega arith))

    next_modal-count :
        (o : Option PromptModal) (queue : List PromptModal)
        → count modal_reply r (opened (next_modal platform read_openssh_file o queue).0)
            + count modal_reply r (next_modal platform read_openssh_file o queue).1
          ≡ count modal_reply r (opened o) + count modal_reply r queue
    unfolding next_modal count
    next_modal-count (some m) queue = refl
    next_modal-count none [] = refl
    next_modal-count none (m ∷ queue) = omega arith

    total-modal_frame :
        (f : Frame) (s : Prompts K) → total (modal_frame platform read_openssh_file f s) ≡ total s
    unfolding modal_frame
    total-modal_frame f s =
        let next = next_modal platform read_openssh_file s.modal s.modal_queue in
        total-shown f next.0 (record s { modal = next.0; modal_queue = next.1 }) refl
        ∙ omega (arith, next_modal-count s.modal s.modal_queue)

    total-step :
        (e : Event) (s : Prompts K)
        → total (step platform read_openssh_file e s)
          ≡ total s + count prompt_reply r (raised_prompts (e ∷ []))
    unfolding step count forget_passphrases
    total-step (raised p) s = total-handle_prompt p s ∙ omega arith
    total-step (frame f) s = total-modal_frame f s ∙ omega arith
    total-step forget s = omega arith

    -- Whatever back ends raise and the user does, in any order, every prompt is accounted for: the replies sent
    -- and those waiting in a modal grow by exactly the prompts raised. None is answered twice or lost.
    pub replies_conserved :
        (events : List Event) (s : Prompts K)
        → let s' = run platform read_openssh_file events s in
          count sent_reply r s'.sent
            + (count modal_reply r (opened s'.modal) + count modal_reply r s'.modal_queue)
          ≡ count sent_reply r s.sent
            + (count modal_reply r (opened s.modal) + count modal_reply r s.modal_queue)
            + count prompt_reply r (raised_prompts events)
    unfolding run count
    replies_conserved [] s = omega arith
    replies_conserved (raised p ∷ events) s =
        replies_conserved events (step platform read_openssh_file (raised p) s)
        ∙ omega (arith, total-step (raised p) s)
    replies_conserved (frame f ∷ events) s =
        replies_conserved events (step platform read_openssh_file (frame f) s)
        ∙ omega (arith, total-step (frame f) s)
    replies_conserved (forget ∷ events) s =
        replies_conserved events (step platform read_openssh_file forget s)
        ∙ omega (arith, total-step forget s)
