-- ===== src/Ui/Prompts/Answer/Unlocked.antt =====
-- The passphrases kept for the run.
use poly_term.Prelude.{
  ◌≡◌, ◌≢◌, refl, sym, subst, inl, inr, Bool, Option, none, some, List, [], ◌∷◌, Bool-cases,
  Option-cases, All, retain, list_eq, nat_eq,
}
use poly_term.Prelude.Text.{Text}
use poly_term.Prelude.Path.{PathBuf}
use poly_term.Core.Prompt.{
  KnownHostStatus, unknown, matching, changed, HostKeyPrompt, CredentialPrompt, CredentialRequest,
  password, passphrase, keyboard_interactive,
}
use poly_term.Store.Credentials.{Platform}
use poly_term.Ui.Keys.{
  PassphraseCheck, correct, incorrect, unverifiable, PrivateKey, verify_passphrase,
}
use poly_term.Ui.PaneEvents.{PendingPrompt, host_key_prompt, credential_prompt}
use poly_term.Ui.Prompts.Modal.{
  PromptModal, host_key_modal, credential_modal, ModalAnswer, pending, trust, credential_cancelled,
  credential_secret, credential_responses, Frame, show,
}
use poly_term.Ui.Prompts.Answer.{
  Prompts, enqueue_modal, on_status, other_path, insert, handle_credential, release, checked,
  on_secret, answered, shown, next_modal, handle_prompt, resolve_modal, modal_frame,
  forget_passphrases,
}
use poly_term.Ui.Prompts.Answer.Run.{Event, raised, frame, forget, step, run}

All-retain {ℓ κ} :
    {A : Type ℓ} (P : A → Type κ) (p : A → Bool) (xs : List A) → All P xs → All P (retain p xs)
All-retain P p [] h = tt
All-retain P p (x ∷ xs) h = elim (Bool-cases (p x)) [
  | inl e ↦ rw e (h.0, All-retain P p xs h.1)
  | inr e ↦ rw e (All-retain P p xs h.1)
]

cache-enqueue_modal :
    {K : Type 0} (m : PromptModal) (s : Prompts K)
    → (enqueue_modal m s).passphrase_cache ≡ s.passphrase_cache
unfolding enqueue_modal
cache-enqueue_modal m s = elim (Option-cases s.modal) [
  | inl e ↦ rw e refl
  | inr (m', e) ↦ rw e refl
]

cache-on_status :
    {K : Type 0} (p : HostKeyPrompt) (status : KnownHostStatus) (s : Prompts K)
    → (on_status p status s).passphrase_cache ≡ s.passphrase_cache
unfolding on_status
cache-on_status p matching s = refl
cache-on_status p unknown s = cache-enqueue_modal _ s
cache-on_status p changed s = cache-enqueue_modal _ s

module _ {K : Type 0} (platform : Platform K)
    (read_openssh_file : PathBuf → Option PrivateKey) where
  -- The key read at the path does not refuse the passphrase.
  abbrev pub Unlocks : PathBuf × Text → Type 0
  Unlocks e = verify_passphrase read_openssh_file e.0 e.1 ≢ incorrect

  cache-handle_credential :
      (prompt : CredentialPrompt) (o o' : Option Text) (s : Prompts K)
      → (handle_credential platform read_openssh_file prompt o o' s).passphrase_cache
        ≡ s.passphrase_cache
  unfolding handle_credential
  cache-handle_credential prompt (some v) o' s = refl
  cache-handle_credential prompt none (some v) s = refl
  cache-handle_credential prompt none none s = cache-enqueue_modal _ s

  cache-handle_prompt :
      (p : PendingPrompt) (s : Prompts K)
      → (handle_prompt platform read_openssh_file p s).passphrase_cache ≡ s.passphrase_cache
  unfolding handle_prompt
  cache-handle_prompt (host_key_prompt p) s = cache-on_status p _ s
  cache-handle_prompt (credential_prompt p) s = cache-handle_credential p _ _ s

  abbrev Kept : Prompts K → Type 0
  Kept s = All Unlocks s.passphrase_cache

  insert-Unlocks :
      (path : PathBuf) (v : Text) (cache : List (PathBuf × Text))
      → Unlocks (path, v)
      → All Unlocks cache
      → All Unlocks (insert path v cache)
  insert-Unlocks path v cache new h = (new, All-retain Unlocks (other_path path) cache h)

  checked-Kept :
      (prompt : CredentialPrompt) (path : PathBuf) (v : Text) (b : Bool) (c : PassphraseCheck)
      (s : Prompts K)
      → verify_passphrase read_openssh_file path v ≡ c
      → Kept s
      → Kept (checked platform read_openssh_file prompt path v b c s)
  unfolding checked release
  checked-Kept prompt path v b incorrect s e h =
      subst (All Unlocks) (sym (cache-enqueue_modal _ s)) h
  checked-Kept prompt path v b correct s e h =
      insert-Unlocks path v s.passphrase_cache (λ wrong. cc) h
  checked-Kept prompt path v b unverifiable s e h =
      insert-Unlocks path v s.passphrase_cache (λ wrong. cc) h

  on_secret-Kept :
      (request : CredentialRequest) (prompt : CredentialPrompt) (v : Text) (b : Bool)
      (s : Prompts K)
      → Kept s
      → Kept (on_secret platform read_openssh_file request prompt v b s)
  unfolding on_secret release
  on_secret-Kept (passphrase path) prompt v b s h = checked-Kept prompt path v b _ s refl h
  on_secret-Kept (password user host) prompt v b s h = h
  on_secret-Kept (keyboard_interactive n i ps) prompt v b s h = h

  answered-Kept :
      (m : PromptModal) (a : ModalAnswer) (s : Prompts K)
      → Kept s
      → Kept (answered platform read_openssh_file m a s)
  unfolding answered resolve_modal
  answered-Kept m pending s h = h
  answered-Kept (host_key_modal p status) (trust d) s h = h
  answered-Kept (host_key_modal p status) credential_cancelled s h = h
  answered-Kept (host_key_modal p status) (credential_secret v b) s h = h
  answered-Kept (host_key_modal p status) (credential_responses vs) s h = h
  answered-Kept (credential_modal p i r e) (trust d) s h = h
  answered-Kept (credential_modal p i r e) credential_cancelled s h = h
  answered-Kept (credential_modal p i r e) (credential_secret v b) s h =
      on_secret-Kept p.request p v b s h
  answered-Kept (credential_modal p i r e) (credential_responses vs) s h = h

  shown-Kept :
      (f : Frame) (o : Option PromptModal) (s : Prompts K)
      → Kept s
      → Kept (shown platform read_openssh_file f o s)
  unfolding shown
  shown-Kept f none s h = h
  shown-Kept f (some m) s h = answered-Kept (show f m).0 (show f m).1 (record s { modal = none }) h

  step-Kept : (e : Event) (s : Prompts K) → Kept s → Kept (step platform read_openssh_file e s)
  unfolding step modal_frame forget_passphrases
  step-Kept (raised p) s h = subst (All Unlocks) (sym (cache-handle_prompt p s)) h
  step-Kept (frame f) s h =
      let next = next_modal platform read_openssh_file s.modal s.modal_queue in
      shown-Kept f next.0 (record s { modal = next.0; modal_queue = next.1 }) h
  step-Kept forget s h = tt

  -- No passphrase that the key refuses is ever kept: in every run, while the key files stay as they are, each cached
  -- passphrase unlocks its key, or belongs to a key that cannot be checked.
  pub cached_passphrases_unlock :
      (events : List Event) (s : Prompts K)
      → All Unlocks s.passphrase_cache
      → All Unlocks (run platform read_openssh_file events s).passphrase_cache
  unfolding run
  cached_passphrases_unlock [] s h = h
  cached_passphrases_unlock (e ∷ events) s h =
      cached_passphrases_unlock events (step platform read_openssh_file e s) (step-Kept e s h)
