-- ===== src/Ui/Prompts/Answer/Trust.antt =====
-- When a server's key is accepted, and which passphrases are kept.
use poly_term.Prelude.{
  ◌≡◌, refl, ap, ◌∙◌, Bool, true, false, Option, some, List, if◌then◌else◌, ◌==◌, list_eq, nat_eq,
}
use poly_term.Prelude.Path.{PathBuf}
use poly_term.Core.Prompt.{
  accept_once, accept_and_remember, KnownHostStatus, matching, changed, HostKeyPrompt,
}
use poly_term.Store.Credentials.{Platform}
use poly_term.Store.KnownHosts.{HostKey, remember_host_key}
use poly_term.Store.KnownHosts.Trust.{status-remember}
use poly_term.Ui.Keys.{PrivateKey}
use poly_term.Ui.PaneEvents.{host_key_prompt}
use poly_term.Ui.Prompts.Modal.{host_key_modal, trust}
use poly_term.Ui.Prompts.Answer.{
  decision, Prompts, send, enqueue_modal, on_status, status_of, remember_key, handle_prompt,
  resolve_modal,
}

on_status-if :
    {K : Type 0} (q : HostKeyPrompt) (b : Bool) (s : Prompts K)
    → on_status q (if b then matching else changed) s ≡ (
        if b
        then send q.reply (decision accept_once) s
        else enqueue_modal (host_key_modal q changed) s)
unfolding on_status
on_status-if q true s = refl
on_status-if q false s = refl

module _ {K : Type 0} (platform : Platform K)
    (read_openssh_file : PathBuf → Option PrivateKey) where
  -- Where a trust store is open and the user accepts a server's key to be remembered, then in any state whose trust
  -- store is the one that this leaves, a prompt for that host, port and key type is accepted without a question
  -- when the key is the same, and opens a warning that it changed, with nothing sent, when it is another.
  pub accepted_key_is_remembered :
      (p q : HostKeyPrompt) (status : KnownHostStatus) (hosts : List HostKey) (s s' : Prompts K)
      → s.known_hosts ≡ some hosts
      → s'.known_hosts
        ≡ (resolve_modal platform read_openssh_file
            (host_key_modal p status)
            (trust accept_and_remember)
            s).known_hosts
      → p.host ≡ q.host
      → p.port ≡ q.port
      → p.key_type ≡ q.key_type
      → handle_prompt platform read_openssh_file (host_key_prompt q) s' ≡ (
          if p.public_key == q.public_key
          then send q.reply (decision accept_once) s'
          else enqueue_modal (host_key_modal q changed) s')
  unfolding resolve_modal remember_key handle_prompt status_of
  accepted_key_is_remembered p q status hosts s s' known after h1 h2 h3 =
      let stored : s'.known_hosts
          ≡ some (remember_host_key hosts p.host p.port p.key_type p.public_key) =
        rw after (rw known refl) in
      ap (λ o. on_status q (status_of o q) s') stored
      ∙ (ap (λ st. on_status q st s')
            ((status-remember p.host p.port p.key_type p.public_key hosts q.host q.port q.key_type
                q.public_key).0
              (h1, h2, h3))
          ∙ on_status-if q (p.public_key == q.public_key) s')
