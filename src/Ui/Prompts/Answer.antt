-- ===== src/Ui/Prompts/Answer.antt =====
-- crates/polyterm-ui/src/app.rs: `handle_prompt`, `enqueue_modal`, `resolve_modal`, and the part of a frame that shows
-- the modal. Errors of the trust store and the keyring are dropped, as the code does.
pub mod Run
pub mod Replies
pub mod Trust
pub mod Accepted
pub mod Unlocked
mod Tests
use poly_term.Prelude.{
  ℕ, Bool, true, false, not, ◌&&◌, Option, none, some, List, [], ◌∷◌, ◌++◌, ◌==◌, list_eq, nat_eq,
  find, retain, if◌then◌else◌,
}
use poly_term.Prelude.Text.{Text, codes}
use poly_term.Prelude.Path.{PathBuf}
use poly_term.Core.Session.{CredentialRef}
use poly_term.Core.Prompt.{
  Reply, TrustDecision, reject, accept_once, accept_and_remember, KnownHostStatus, unknown,
  matching, changed, HostKeyPrompt, CredentialRequest, password, passphrase, keyboard_interactive,
  CredentialPrompt, CredentialReply, cancelled, secret, responses,
}
use poly_term.Store.Op.{Result, ok, err}
use poly_term.Store.Credentials.{Platform, load, store}
use poly_term.Store.KnownHosts.{HostKey, known_host_status, remember_host_key}
use poly_term.Ui.Keys.{
  PassphraseCheck, correct, incorrect, unverifiable, PrivateKey, verify_passphrase,
}
use poly_term.Ui.PaneEvents.{PendingPrompt, host_key_prompt, credential_prompt}
use poly_term.Ui.Prompts.Modal.{
  PromptModal, host_key_modal, credential_modal, credential, credential_retry, ModalAnswer, pending,
  trust, credential_cancelled, credential_secret, credential_responses, Frame, show,
}

-- What a `oneshot` carries.
pub data Sent : Type 0 where
  decision : TrustDecision → Sent
  reply : CredentialReply → Sent

-- The fields of `PolyTermApp` that prompts use, the keyring, and what was sent, oldest first.
pub record Prompts (K : Type 0) : Type 0 where
  pub known_hosts : Option (List HostKey)
  pub passphrase_cache : List (PathBuf × Text)
  pub modal : Option PromptModal
  pub modal_queue : List PromptModal
  pub keyring : K
  pub sent : List (Reply × Sent)

-- `HashMap::get` and `HashMap::insert`, on a map that is a list with one entry per key.
abbrev pub cached : PathBuf → List (PathBuf × Text) → Option Text
cached path [] = none
cached path (e ∷ cache) = if e.0 == path then some e.1 else cached path cache

abbrev other_path : PathBuf → PathBuf × Text → Bool
other_path path e = not (e.0 == path)

abbrev pub insert : PathBuf → Text → List (PathBuf × Text) → List (PathBuf × Text)
insert path value cache = (path, value) ∷ retain (other_path path) cache

status_of : Option (List HostKey) → HostKeyPrompt → KnownHostStatus
status_of none prompt = unknown
status_of (some hosts) prompt =
    known_host_status hosts prompt.host prompt.port prompt.key_type prompt.public_key

-- A passphrase that was unlocked in this run.
cached_for : CredentialRequest → List (PathBuf × Text) → Option Text
cached_for (passphrase key_path) cache = cached key_path cache
cached_for (password username host) cache = none
cached_for (keyboard_interactive name instruction prompts) cache = none

ok_flatten : Result (Option Text) → Option Text
ok_flatten (ok value) = value
ok_flatten (err e) = none

module _ {K : Type 0} where
  unfoldable pub send : Reply → Sent → Prompts K → Prompts K
  send r answer s = record s { sent = s.sent ++ (r, answer) ∷ [] }

  unfoldable pub enqueue_modal : PromptModal → Prompts K → Prompts K
  enqueue_modal modal s = elim s.modal [
    | none ↦ record s { modal = some modal }
    | some open_one ↦ record s { modal_queue = s.modal_queue ++ modal ∷ [] }
  ]

  on_status : HostKeyPrompt → KnownHostStatus → Prompts K → Prompts K
  unfolding send enqueue_modal
  on_status prompt matching s = send prompt.reply (decision accept_once) s
  on_status prompt unknown s = enqueue_modal (host_key_modal prompt unknown) s
  on_status prompt changed s = enqueue_modal (host_key_modal prompt changed) s

  module _ (platform : Platform K) (read_openssh_file : PathBuf → Option PrivateKey) where
    -- Only a password or a passphrase with a credential is looked up.
    stored_for : Option CredentialRef → CredentialRequest → K → Option Text
    unfolding ok_flatten
    stored_for (some c) (password username host) k = ok_flatten (load platform c k)
    stored_for (some c) (passphrase key_path) k = ok_flatten (load platform c k)
    stored_for (some c) (keyboard_interactive name instruction prompts) k = none
    stored_for none request k = none

    handle_credential : CredentialPrompt → Option Text → Option Text → Prompts K → Prompts K
    unfolding send enqueue_modal
    handle_credential prompt (some value) stored s =
        send prompt.reply (reply (secret value false)) s
    handle_credential prompt none (some value) s = send prompt.reply (reply (secret value false)) s
    handle_credential prompt none none s = enqueue_modal (credential prompt) s

    unfoldable pub handle_prompt : PendingPrompt → Prompts K → Prompts K
    unfolding on_status status_of handle_credential cached_for stored_for
    handle_prompt (host_key_prompt prompt) s = on_status prompt (status_of s.known_hosts prompt) s
    handle_prompt (credential_prompt prompt) s =
        handle_credential prompt (cached_for prompt.request s.passphrase_cache)
          (stored_for prompt.credential prompt.request s.keyring) s

    remember_key : HostKeyPrompt → TrustDecision → Option (List HostKey) → Option (List HostKey)
    remember_key prompt accept_and_remember (some hosts) =
        some (remember_host_key hosts prompt.host prompt.port prompt.key_type prompt.public_key)
    remember_key prompt accept_and_remember none = none
    remember_key prompt accept_once hosts = hosts
    remember_key prompt reject hosts = hosts

    remember_secret : Bool → Option CredentialRef → Text → K → K
    remember_secret true (some c) value k = (store platform c value k).1
    remember_secret true none value k = k
    remember_secret false credential value k = k

    -- Store the secret if asked to, and send it.
    release : CredentialPrompt → Text → Bool → Prompts K → Prompts K
    unfolding send remember_secret
    release prompt value remember s =
        send prompt.reply (reply (secret value remember))
          (record s { keyring = remember_secret remember prompt.credential value s.keyring })

    checked : CredentialPrompt → PathBuf → Text → Bool → PassphraseCheck → Prompts K → Prompts K
    unfolding release enqueue_modal
    checked prompt key_path value remember incorrect s =
        enqueue_modal (credential_retry prompt (codes "Wrong passphrase.")) s
    checked prompt key_path value remember correct s =
        release prompt value remember
          (record s { passphrase_cache = insert key_path value s.passphrase_cache })
    checked prompt key_path value remember unverifiable s =
        release prompt value remember
          (record s { passphrase_cache = insert key_path value s.passphrase_cache })

    on_secret : CredentialRequest → CredentialPrompt → Text → Bool → Prompts K → Prompts K
    unfolding checked release
    on_secret (passphrase key_path) prompt value remember s =
        checked prompt key_path value remember (verify_passphrase read_openssh_file key_path value)
          s
    on_secret (password username host) prompt value remember s = release prompt value remember s
    on_secret (keyboard_interactive name instruction prompts) prompt value remember s =
        release prompt value remember s

    unfoldable pub resolve_modal : PromptModal → ModalAnswer → Prompts K → Prompts K
    unfolding send remember_key on_secret
    resolve_modal (host_key_modal prompt status) (trust d) s =
        send prompt.reply (decision d)
          (record s { known_hosts = remember_key prompt d s.known_hosts })
    resolve_modal (credential_modal prompt inputs r error) credential_cancelled s =
        send prompt.reply (reply cancelled) s
    resolve_modal (credential_modal prompt inputs r error) (credential_secret value remember) s =
        on_secret prompt.request prompt value remember s
    resolve_modal (credential_modal prompt inputs r error) (credential_responses values) s =
        send prompt.reply (reply (responses values)) s
    resolve_modal (host_key_modal prompt status) pending s = s
    resolve_modal (host_key_modal prompt status) credential_cancelled s = s
    resolve_modal (host_key_modal prompt status) (credential_secret value remember) s = s
    resolve_modal (host_key_modal prompt status) (credential_responses values) s = s
    resolve_modal (credential_modal prompt inputs r error) pending s = s
    resolve_modal (credential_modal prompt inputs r error) (trust d) s = s

    -- `self.modal_queue.pop_front()`
    next_modal : Option PromptModal → List PromptModal → Option PromptModal × List PromptModal
    next_modal (some modal) queue = (some modal, queue)
    next_modal none [] = (none, [])
    next_modal none (modal ∷ queue) = (some modal, queue)

    answered : PromptModal → ModalAnswer → Prompts K → Prompts K
    unfolding resolve_modal
    answered modal pending s = record s { modal = some modal }
    answered modal (trust d) s = resolve_modal modal (trust d) s
    answered modal credential_cancelled s = resolve_modal modal credential_cancelled s
    answered modal (credential_secret v r) s = resolve_modal modal (credential_secret v r) s
    answered modal (credential_responses vs) s = resolve_modal modal (credential_responses vs) s

    shown : Frame → Option PromptModal → Prompts K → Prompts K
    unfolding answered
    shown f none s = s
    shown f (some modal) s =
        let (modal', answer) = show f modal in answered modal' answer (record s { modal = none })

    -- The modal's turn in `update`.
    unfoldable pub modal_frame : Frame → Prompts K → Prompts K
    unfolding next_modal shown
    modal_frame f s =
        let (modal, queue) = next_modal s.modal s.modal_queue in
        shown f modal (record s { modal = modal; modal_queue = queue })

-- "Forget key passphrases" of the settings.
unfoldable pub forget_passphrases : {K : Type 0} → Prompts K → Prompts K
forget_passphrases s = record s { passphrase_cache = [] }
