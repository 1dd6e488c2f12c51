-- ===== src/Ui/Prompts/Answer/Accepted.antt =====
-- A server's key is accepted only if it is stored, or the user clicks on it.
use poly_term.Prelude.{
  ℕ, ◌≡◌, refl, ◌⊎◌, inl, inr, Bool, true, Option, none, some, List, [], ◌∷◌, arith, Option-cases,
}
use poly_term.Prelude.Text.{Text, codes}
use poly_term.Prelude.Path.{PathBuf}
use poly_term.Core.Prompt.{
  Reply, reject, accept_once, accept_and_remember, KnownHostStatus, unknown, matching, changed,
  HostKeyPrompt, CredentialPrompt, CredentialReply, CredentialRequest, password, passphrase,
  keyboard_interactive,
}
use poly_term.Store.Credentials.{Platform}
use poly_term.Store.KnownHosts.{HostKey, known_host_status}
use poly_term.Ui.Keys.{PassphraseCheck, correct, incorrect, unverifiable, PrivateKey}
use poly_term.Ui.PaneEvents.{host_key_prompt, credential_prompt}
use poly_term.Ui.Prompts.Modal.{
  PromptModal, host_key_modal, credential_modal, credential, credential_retry, ModalAnswer, pending,
  trust, credential_cancelled, credential_secret, credential_responses, Frame, show,
}
use poly_term.Ui.Prompts.Modal.Fits.{show-clicked}
use poly_term.Ui.Prompts.Answer.{
  Sent, decision, reply, Prompts, send, enqueue_modal, on_status, status_of, remember_key,
  remember_secret, insert, handle_credential, release, checked, on_secret, answered, shown,
  next_modal, handle_prompt, resolve_modal, modal_frame, forget_passphrases,
}
use poly_term.Ui.Prompts.Answer.Run.{Event, raised, frame, forget, count, count-append, step}

abbrev accepting : Reply × Sent → ℕ
accepting (r, decision accept_once) = 1
accepting (r, decision accept_and_remember) = 1
accepting (r, decision reject) = 0
accepting (r, reply answer) = 0

-- How many keys were accepted so far.
abbrev pub accepted : {K : Type 0} → Prompts K → ℕ
accepted s = count accepting 1 s.sent

-- What lets a step accept a key.
abbrev pub MayAccept : {K : Type 0} → Event → Prompts K → Type 0
MayAccept (raised (host_key_prompt p)) s =
    (hosts : List HostKey) × (s.known_hosts ≡ some hosts)
    × (known_host_status hosts p.host p.port p.key_type p.public_key ≡ matching)
MayAccept (raised (credential_prompt p)) s = ⊥
MayAccept (frame f) s = (f.window_open ≡ true) × (f.accept_clicked ≡ true)
MayAccept forget s = ⊥

status_of-matching :
    (o : Option (List HostKey)) (p : HostKeyPrompt)
    → status_of o p ≡ matching
    → (hosts : List HostKey) × (o ≡ some hosts)
      × (known_host_status hosts p.host p.port p.key_type p.public_key ≡ matching)
unfolding status_of
status_of-matching none p h = cc
status_of-matching (some hosts) p h = (hosts, refl, h)

module _ {K : Type 0} where
  accepted-send :
      (r : Reply) (a : CredentialReply) (s : Prompts K) → accepted (send r (reply a) s) ≡ accepted s
  unfolding send count
  accepted-send r a s = omega (arith, count-append accepting 1 s.sent ((r, reply a) ∷ []))

  accepted-reject : (r : Reply) (s : Prompts K) → accepted (send r (decision reject) s) ≡ accepted s
  unfolding send count
  accepted-reject r s = omega (arith, count-append accepting 1 s.sent ((r, decision reject) ∷ []))

  accepted-enqueue_modal :
      (m : PromptModal) (s : Prompts K) → accepted (enqueue_modal m s) ≡ accepted s
  unfolding enqueue_modal
  accepted-enqueue_modal m s = elim (Option-cases s.modal) [
    | inl e ↦ rw e refl
    | inr (m', e) ↦ rw e refl
  ]

  on_status-accepted :
      (p : HostKeyPrompt) (status : KnownHostStatus) (s : Prompts K)
      → (accepted (on_status p status s) ≡ accepted s) ⊎ (status ≡ matching)
  unfolding on_status
  on_status-accepted p matching s = inr refl
  on_status-accepted p unknown s = inl (accepted-enqueue_modal (host_key_modal p unknown) s)
  on_status-accepted p changed s = inl (accepted-enqueue_modal (host_key_modal p changed) s)

  module _ (platform : Platform K) (read_openssh_file : PathBuf → Option PrivateKey) where
    accepted-handle_credential :
        (prompt : CredentialPrompt) (o o' : Option Text) (s : Prompts K)
        → accepted (handle_credential platform read_openssh_file prompt o o' s) ≡ accepted s
    unfolding handle_credential
    accepted-handle_credential prompt (some v) o' s = accepted-send prompt.reply _ s
    accepted-handle_credential prompt none (some v) s = accepted-send prompt.reply _ s
    accepted-handle_credential prompt none none s = accepted-enqueue_modal (credential prompt) s

    accepted-release :
        (prompt : CredentialPrompt) (v : Text) (b : Bool) (s : Prompts K)
        → accepted (release platform read_openssh_file prompt v b s) ≡ accepted s
    unfolding release
    accepted-release prompt v b s = accepted-send prompt.reply _ (record s {
      keyring = remember_secret platform read_openssh_file b prompt.credential v s.keyring;
    })

    accepted-checked :
        (prompt : CredentialPrompt) (path : PathBuf) (v : Text) (b : Bool) (c : PassphraseCheck)
        (s : Prompts K)
        → accepted (checked platform read_openssh_file prompt path v b c s) ≡ accepted s
    unfolding checked
    accepted-checked prompt path v b incorrect s =
        accepted-enqueue_modal (credential_retry prompt (codes "Wrong passphrase.")) s
    accepted-checked prompt path v b correct s =
        accepted-release prompt v b
          (record s { passphrase_cache = insert path v s.passphrase_cache })
    accepted-checked prompt path v b unverifiable s =
        accepted-release prompt v b
          (record s { passphrase_cache = insert path v s.passphrase_cache })

    accepted-on_secret :
        (request : CredentialRequest) (prompt : CredentialPrompt) (v : Text) (b : Bool)
        (s : Prompts K)
        → accepted (on_secret platform read_openssh_file request prompt v b s) ≡ accepted s
    unfolding on_secret
    accepted-on_secret (passphrase path) prompt v b s = accepted-checked prompt path v b _ s
    accepted-on_secret (password u h) prompt v b s = accepted-release prompt v b s
    accepted-on_secret (keyboard_interactive n i ps) prompt v b s = accepted-release prompt v b s

    -- Only an answer of the host key's modal that is no rejection can accept.
    accepted-resolve_modal :
        (m : PromptModal) (a : ModalAnswer) (s : Prompts K)
        → (accepted (resolve_modal platform read_openssh_file m a s) ≡ accepted s)
          ⊎ (a ≡ trust accept_and_remember)
          ⊎ (a ≡ trust accept_once)
    unfolding resolve_modal
    accepted-resolve_modal (host_key_modal p status) (trust reject) s = inl (
        accepted-reject p.reply (record s {
          known_hosts = remember_key platform read_openssh_file p reject s.known_hosts;
        }))
    accepted-resolve_modal (host_key_modal p status) (trust accept_once) s = inr (inr refl)
    accepted-resolve_modal (host_key_modal p status) (trust accept_and_remember) s = inr (inl refl)
    accepted-resolve_modal (host_key_modal p status) pending s = inl refl
    accepted-resolve_modal (host_key_modal p status) credential_cancelled s = inl refl
    accepted-resolve_modal (host_key_modal p status) (credential_secret v b) s = inl refl
    accepted-resolve_modal (host_key_modal p status) (credential_responses vs) s = inl refl
    accepted-resolve_modal (credential_modal p i b e) pending s = inl refl
    accepted-resolve_modal (credential_modal p i b e) (trust d) s = inl refl
    accepted-resolve_modal (credential_modal p i b e) credential_cancelled s =
        inl (accepted-send p.reply _ s)
    accepted-resolve_modal (credential_modal p i b e) (credential_secret v b') s =
        inl (accepted-on_secret p.request p v b' s)
    accepted-resolve_modal (credential_modal p i b e) (credential_responses vs) s =
        inl (accepted-send p.reply _ s)

    accepted-answered :
        (m : PromptModal) (a : ModalAnswer) (s : Prompts K)
        → (accepted (answered platform read_openssh_file m a s) ≡ accepted s)
          ⊎ (a ≡ trust accept_and_remember)
          ⊎ (a ≡ trust accept_once)
    unfolding answered
    accepted-answered m pending s = inl refl
    accepted-answered m (trust d) s = accepted-resolve_modal m (trust d) s
    accepted-answered m credential_cancelled s = accepted-resolve_modal m credential_cancelled s
    accepted-answered m (credential_secret v b) s =
        accepted-resolve_modal m (credential_secret v b) s
    accepted-answered m (credential_responses vs) s =
        accepted-resolve_modal m (credential_responses vs) s

    shown-accepted :
        (f : Frame) (o : Option PromptModal) (s : Prompts K)
        → (accepted (shown platform read_openssh_file f o s) ≡ accepted s)
          ⊎ ((f.window_open ≡ true) × (f.accept_clicked ≡ true))
    unfolding shown
    shown-accepted f none s = inl refl
    shown-accepted f (some m) s =
        elim (accepted-answered (show f m).0 (show f m).1 (record s { modal = none })) [
          | inl same ↦ inl same
          | inr h ↦ inr (show-clicked f m h)
        ]

    -- A server's key is accepted by no step but two: the prompt for a key that the trust store has for that host, port
    -- and key type, and a frame in which the user clicks on accept and leaves the window open.
    pub accepted_only_if :
        (e : Event) (s : Prompts K)
        → (accepted (step platform read_openssh_file e s) ≡ accepted s) ⊎ MayAccept e s
    unfolding step handle_prompt modal_frame forget_passphrases
    accepted_only_if (raised (host_key_prompt p)) s =
        elim (on_status-accepted p (status_of s.known_hosts p) s) [
          | inl same ↦ inl same
          | inr h ↦ inr (status_of-matching s.known_hosts p h)
        ]
    accepted_only_if (raised (credential_prompt p)) s = inl (accepted-handle_credential p _ _ s)
    accepted_only_if (frame f) s =
        let next = next_modal platform read_openssh_file s.modal s.modal_queue in
        shown-accepted f next.0 (record s { modal = next.0; modal_queue = next.1 })
    accepted_only_if forget s = inl refl
