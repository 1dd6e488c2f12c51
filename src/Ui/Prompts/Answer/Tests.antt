-- ===== src/Ui/Prompts/Answer/Tests.antt =====
-- A session that asks for a key's passphrase, is given a wrong one and then the right one; and a server's key.
use poly_term.Prelude.{
  ◌+◌, ◌≡◌, refl, ◌⊎◌, inl, inr, true, false, Option, none, some, List, [], ◌∷◌, if◌then◌else◌,
  ◌==◌, list_eq, nat_eq, All,
}
use poly_term.Prelude.Text.{Text, codes}
use poly_term.Prelude.Path.{PathBuf}
use poly_term.Core.Prompt.{
  accept_once, accept_and_remember, unknown, changed, HostKeyPrompt, CredentialPrompt, passphrase,
  secret,
}
use poly_term.Store.Credentials.{Platform, no_entry}
use poly_term.Ui.Keys.{PrivateKey, verify_passphrase}
use poly_term.Ui.PaneEvents.{host_key_prompt, credential_prompt}
use poly_term.Ui.Prompts.Modal.{host_key_modal, trust, credential, credential_retry, show, Frame}
use poly_term.Ui.Prompts.Modal.Fits.{modal_reply}
use poly_term.Ui.Prompts.Answer.{
  decision, reply, Prompts, send, enqueue_modal, handle_prompt, resolve_modal, modal_frame,
}
use poly_term.Ui.Prompts.Answer.Run.{
  Event, raised, frame, prompt_reply, sent_reply, count, opened, raised_prompts, step, run,
}
use poly_term.Ui.Prompts.Answer.Replies.{replies_conserved}
use poly_term.Ui.Prompts.Answer.Trust.{accepted_key_is_remembered}
use poly_term.Ui.Prompts.Answer.Accepted.{accepted, MayAccept, accepted_only_if}
use poly_term.Ui.Prompts.Answer.Unlocked.{Unlocks, cached_passphrases_unlock}

-- A keyring of one entry.
abbrev one_entry : Platform (Option Text)
one_entry = record {
  entry = λ c. none;
  get_password = λ k c. elim k [ none ↦ inl no_entry | some t ↦ inr t ];
  set_password = λ k c t. (none, some t);
  delete_credential = λ k c. (none, none);
}

abbrev key_file : PathBuf → Option PrivateKey
key_file path = some (record { is_encrypted = true; decrypt = λ t. t == codes "right" })

abbrev key_path : PathBuf
key_path = codes "key" ∷ []

abbrev asks : CredentialPrompt
asks = record { request = passphrase key_path; credential = none; reply = 7 }

abbrev new : Prompts (Option Text)
new = record {
  known_hosts = some [];
  passphrase_cache = [];
  modal = none;
  modal_queue = [];
  keyring = none;
  sent = [];
}

-- The user types the text and clicks OK.
abbrev gives : Text → Frame
gives text = record {
  typed = λ i old. text;
  toggled = false;
  accept_clicked = false;
  reject_clicked = false;
  ok_clicked = true;
  enter = false;
  cancel_clicked = false;
  window_open = true;
}

abbrev wrong_then_right : List Event
wrong_then_right =
    raised (credential_prompt asks)
    ∷ frame (gives (codes "wrong"))
    ∷ frame (gives (codes "right"))
    ∷ []

right_is_sent :
    (run one_entry key_file wrong_then_right new).sent
    ≡ (7, reply (secret (codes "right") false)) ∷ []
unfolding run modal_frame credential credential_retry show verify_passphrase handle_prompt
right_is_sent = refl

abbrev server : HostKeyPrompt
server = record {
  host = codes "h";
  port = 22;
  key_type = codes "ed25519";
  fingerprint = [];
  public_key = 1 ∷ [];
  reply = 3;
}

replies_conserved_example :
    let s' = run one_entry key_file wrong_then_right new in
    count sent_reply 7 s'.sent
      + (count modal_reply 7 (opened s'.modal) + count modal_reply 7 s'.modal_queue)
    ≡ count sent_reply 7 new.sent
      + (count modal_reply 7 (opened new.modal) + count modal_reply 7 new.modal_queue)
      + count prompt_reply 7 (raised_prompts wrong_then_right)
replies_conserved_example = replies_conserved 7 one_entry key_file wrong_then_right new

cached_passphrases_unlock_example :
    All (Unlocks one_entry key_file) (run one_entry key_file wrong_then_right new).passphrase_cache
cached_passphrases_unlock_example =
    cached_passphrases_unlock one_entry key_file wrong_then_right new tt

accepted_only_if_example :
    (accepted (step one_entry key_file (raised (host_key_prompt server)) new) ≡ accepted new)
    ⊎ MayAccept (raised (host_key_prompt server)) new
accepted_only_if_example = accepted_only_if one_entry key_file (raised (host_key_prompt server)) new

abbrev after_accept : Prompts (Option Text)
after_accept =
    resolve_modal one_entry key_file (host_key_modal server unknown) (trust accept_and_remember) new

accepted_key_is_remembered_example :
    handle_prompt one_entry key_file
      (host_key_prompt (record server { public_key = 2 ∷ [] }))
      after_accept
    ≡ (if server.public_key == 2 ∷ []
        then send 3 (decision accept_once) after_accept
        else enqueue_modal
            (host_key_modal (record server { public_key = 2 ∷ [] }) changed)
            after_accept)
accepted_key_is_remembered_example =
    accepted_key_is_remembered one_entry key_file server (record server { public_key = 2 ∷ [] })
      unknown [] new after_accept refl refl refl refl refl
